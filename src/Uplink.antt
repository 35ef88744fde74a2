-- ===== src/Uplink.antt =====
-- modules/OVSDriver/module/src/uplink.c: the uplink that in-band traffic leaves by.
-- The array of ports is a list of 1024 places; `beyond` is what a read one past its end gives, which
-- the bound of `is_valid_uplink` lets happen. `OF_PORT_DEST_NONE` is LOCI's and is a parameter. A
-- name is a number.
pub mod Choice
use ivs.Base.{
  ℕ, zero, suc, ◌+◌, bit_and, Bool, true, false, not, ◌&&◌, Option, none, some, List, [], ◌∷◌, ◌++◌,
  ◌==◌, ltb, if◌then◌else◌, get_or,
}

abbrev pub max_ports : ℕ
max_ports = 1024

-- What the file reads of `struct ind_ovs_port`.
pub record Port : Type 0 where
  pub is_uplink : Bool
  pub ifflags : ℕ

-- The static variables of the file, and the array of ports.
pub record State : Type 0 where
  pub uplinks : List ℕ
  pub current_uplink : ℕ
  pub ports : List (Option Port)
  pub beyond : Option Port

unfoldable pub uplink_add : ℕ → State → State
uplink_add name st = record st { uplinks = st.uplinks ++ name ∷ [] }

unfoldable pub uplink_check_by_name : ℕ → List ℕ → Bool
uplink_check_by_name name [] = false
uplink_check_by_name name (other ∷ uplinks) =
    if name == other then true else uplink_check_by_name name uplinks

abbrev pub is_uplink_port : Option Port → Bool
is_uplink_port none = false
is_uplink_port (some port) = port.is_uplink

-- `port && port->is_uplink && port->ifflags & IFF_RUNNING`
abbrev pub is_running_uplink : Option Port → Bool
is_running_uplink none = false
is_running_uplink (some port) = port.is_uplink && not (bit_and port.ifflags 64 == 0)

unfoldable pub is_valid_uplink : ℕ → State → Bool
is_valid_uplink port_no st =
    if ltb max_ports port_no
    then false
    else is_running_uplink
        (if port_no == max_ports then st.beyond else get_or st.ports port_no none)

-- The loop of `ind_ovs_uplink_reselect` from port `i` on, with the rounds that are left.
unfoldable pub first_valid : ℕ → ℕ → State → Option ℕ
unfolding is_valid_uplink
first_valid zero i st = none
first_valid (suc rounds) i st =
    let rest = first_valid rounds (i + 1) st in if is_valid_uplink i st then some i else rest

-- The reselection among the first ports, `rounds` of them.
unfoldable pub reselect_among : ℕ → ℕ → State → State
unfolding is_valid_uplink first_valid
reselect_among rounds dest_none st =
    if is_valid_uplink st.current_uplink st then st else elim (first_valid rounds 0 st) [
      | none ↦ record st { current_uplink = dest_none }
      | some i ↦ record st { current_uplink = i }
    ]

unfoldable pub uplink_reselect : ℕ → State → State
unfolding reselect_among
uplink_reselect dest_none st = reselect_among max_ports dest_none st
