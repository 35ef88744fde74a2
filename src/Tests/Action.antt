-- ===== src/Tests/Action.antt =====
-- The translation of actions at concrete inputs: an untagged IPv4 packet with a TCP header.
use ivs.Base.{
  ℕ, ◌+◌, ◌≡◌, ◌≢◌, refl, sym, ap, ◌∙◌, ◌⊎◌, inl, inr, true, false, Option, none, some, List, [],
  ◌∷◌, Returns, zero, suc, ◌*◌, ◌==◌, if◌then◌else◌, replicate, arith,
}
use ivs.Action.{
  Key, Context, Field, attr_bitmap_test, key_attr, commit_set_field_actions, action_context_init,
  payload, tcp_field, priority_field, in_port_field, ethernet_field, vlan_field, ethertype_field,
  ipv4_field, ipv6_field, udp_field, icmp_field, icmpv6_field, arp_field, tcp_flags_field, htonl,
}
use ivs.Action.Packet.{Packet, run, tag_of, IsSynced}
use ivs.Action.Commit.{IsCurrent, commit_set_field_actions-IsCurrent}
use ivs.Action.Sync.{IsLayered, is_transport}
use ivs.Action.Tag.{IsGood, set_vlan-IsGood}
use ivs.PipelineStandard.{
  Group, Actions, simple, group, done, next, make_group, no_buckets, bucket, set_ipv4_dst,
  set_vlan_vid, output, dec_nw_ttl,
}
use ivs.PipelineStandard.Performs.{Performs}
use ivs.PipelineStandard.Fields.{set_ipv4-IsGood}
use ivs.Action.SetField.{set_vlan, action_set_ipv4_dst}
use ivs.PipelineStandard.OpenFlow.{of_output, of_group, of_unsupported, port_no}
use ivs.PipelineStandard.Value.{
  FlowMod, parse_value, initial_value, flow_mod, apply_instruction, goto_instruction,
}
use ivs.PipelineStandard.Balance.{Settled, parse_value-Settled}
use ivs.PipelineStandard.Process.{FlowEntry, Flowtable, pipeline_standard_process}
use ivs.PipelineStandard.Ends.{IsInstalled, AllInstalled, pipeline_standard_process-Returns}
use mathlib.Core.Path.{subst}
use ivs.PipelineStandard.Goto.{ParsedGoesOn, message_table, parse_value-GoesOn}

-- ETHERNET, ETHERTYPE, IPV4 and TCP are populated.
abbrev tcp_key : Key
tcp_key = record {
  populated = 16 + 64 + 128 + 512;
  priority = 0;
  in_port = 1;
  ethernet = replicate 12 2;
  vlan = 0 ∷ 0 ∷ [];
  ethertype = 8 ∷ 0 ∷ [];
  network = replicate 40 9;
  transport = replicate 24 4;
  tcp_flags = 0 ∷ 0 ∷ [];
  tunnel = [];
}

-- The packet that the key was made of.
abbrev tcp_packet : Packet
unfolding payload
tcp_packet = record { tag = []; field = λ f. payload f tcp_key }

abbrev fresh : Context
fresh = action_context_init tcp_key none []

tcp_key-others :
    (g : Field)
    → tcp_field ≢ g
    → is_transport g ≡ true
    → attr_bitmap_test tcp_key.populated (key_attr g) ≡ false
unfolding attr_bitmap_test
tcp_key-others priority_field apart other = absurd (ground (arith, other))
tcp_key-others in_port_field apart other = absurd (ground (arith, other))
tcp_key-others ethernet_field apart other = absurd (ground (arith, other))
tcp_key-others vlan_field apart other = absurd (ground (arith, other))
tcp_key-others ethertype_field apart other = absurd (ground (arith, other))
tcp_key-others ipv4_field apart other = absurd (ground (arith, other))
tcp_key-others ipv6_field apart other = absurd (ground (arith, other))
tcp_key-others tcp_field apart other = absurd (apart refl)
tcp_key-others udp_field apart other = refl
tcp_key-others icmp_field apart other = refl
tcp_key-others icmpv6_field apart other = refl
tcp_key-others arp_field apart other = refl
tcp_key-others tcp_flags_field apart other = absurd (ground (arith, other))

only_tcp :
    (f g : Field)
    → (f ≡ tcp_field) ⊎ (f ≡ udp_field)
    → f ≢ g
    → is_transport g ≡ true
    → attr_bitmap_test tcp_key.populated (key_attr f) ≡ true
    → attr_bitmap_test tcp_key.populated (key_attr g) ≡ false
unfolding attr_bitmap_test
only_tcp f g (inl e) apart other h = tcp_key-others g (λ same. apart (e ∙ same)) other
only_tcp f g (inr e) apart other h =
    absurd (ground (arith, sym h ∙ ap (λ x. attr_bitmap_test tcp_key.populated (key_attr x)) e))

tcp_key-IsLayered : IsLayered tcp_key
unfolding attr_bitmap_test
tcp_key-IsLayered = record {
  one_network = λ h. refl;
  one_transport = λ f g kind apart other h. only_tcp f g kind apart other h;
}

fresh-IsSynced : IsSynced tcp_packet fresh
unfolding attr_bitmap_test action_context_init tcp_packet tag_of
fresh-IsSynced = record {
  one_tag = refl;
  same_tag = λ h. refl;
  same_field = λ f other live h. refl;
}

fresh-IsGood : IsGood tcp_packet fresh
unfolding action_context_init
fresh-IsGood = record { synced = fresh-IsSynced; layered = tcp_key-IsLayered }

-- A new tag and a new destination, noted and not committed.
abbrev tagged : Context
tagged = action_set_ipv4_dst 167772161 (set_vlan 20 fresh)

tagged-IsSynced : IsSynced tcp_packet tagged
unfolding action_set_ipv4_dst
tagged-IsSynced =
    (set_ipv4-IsGood tcp_packet 4 (htonl 167772161) (set_vlan 20 fresh)
      (set_vlan-IsGood tcp_packet 20 fresh fresh-IsGood)).synced

commit_set_field_actions-IsCurrent_example :
    let ctx' = commit_set_field_actions tagged in
    IsCurrent (run ctx'.msg tcp_packet) tagged.current_key
    × (ctx'.current_key ≡ tagged.current_key)
    × (ctx'.modified_attrs ≡ 0)
commit_set_field_actions-IsCurrent_example =
    commit_set_field_actions-IsCurrent tcp_packet tagged tagged-IsSynced

-- To change the destination, tag and send; to send by a group; and to drop when the TTL ends.
abbrev some_actions : Actions
some_actions = next (simple (set_ipv4_dst 167772161)) (
    next (simple (set_vlan_vid 20)) (
      next (simple (output 2)) (
        next (group (make_group 1 1 (bucket (next (simple (output 3)) done) 40 no_buckets)))
          (next (simple dec_nw_ttl) (next (simple (output 4)) done)))))

-- Group 6 exists, and no other.
abbrev one_group : ℕ → Option Group
one_group id = if id == 6 then some (make_group 6 1 no_buckets) else none

-- The second action fails after the first has taken a group.
abbrev bad_message : FlowMod
bad_message = flow_mod 0 (apply_instruction (of_group 6 ∷ of_unsupported ∷ []) ∷ [])

abbrev goto_message : FlowMod
goto_message = flow_mod 3 (apply_instruction (of_output (port_no 2) ∷ []) ∷ goto_instruction 4 ∷ [])

parse_value-Settled_example :
    Settled one_group 0 1 6 [] (parse_value one_group 0 1 false bad_message [])
parse_value-Settled_example = parse_value-Settled one_group 0 1 6 false bad_message []

parse_value-GoesOn_example :
    ParsedGoesOn (message_table goto_message) (parse_value one_group 0 1 false goto_message [])
parse_value-GoesOn_example = parse_value-GoesOn one_group 0 1 false goto_message []

-- To send on a port, and go on to table 1, which has no entries.
abbrev first_message : FlowMod
first_message =
    flow_mod 0 (apply_instruction (of_output (port_no 2) ∷ []) ∷ goto_instruction 1 ∷ [])

abbrev first_entry : FlowEntry
first_entry = record {
  table_miss = false;
  stats_handle = 70;
  value = record initial_value { apply_actions = next (simple (output 2)) done; next_table_id = 1 };
}

abbrev entry_of : ℕ → Option FlowEntry
entry_of zero = some first_entry
entry_of (suc table_id) = none

abbrev two_tables : ℕ → Option Flowtable
two_tables table_id = some (record {
  tcam_match_and_mask = λ cfr cfr_mask. (entry_of table_id, cfr_mask);
  matched_stats_handle = 2 * table_id;
  missed_stats_handle = 2 * table_id + 1;
})

first_entry-IsInstalled : IsInstalled one_group 0 1 0 first_entry.value
unfolding parse_value
first_entry-IsInstalled = (false, first_message, [], [], refl, refl)

abbrev FoundInstalled : ℕ → Option FlowEntry → Type 0
FoundInstalled table_id none = Unit
FoundInstalled table_id (some entry) = IsInstalled one_group 0 1 table_id entry.value

entry_of-FoundInstalled : (table_id : ℕ) → FoundInstalled table_id (entry_of table_id)
entry_of-FoundInstalled zero = first_entry-IsInstalled
entry_of-FoundInstalled (suc table_id) = tt

two_tables-AllInstalled : AllInstalled one_group 0 1 two_tables
two_tables-AllInstalled table_id below = (
  _,
  refl,
  λ cfr cfr_mask entry e. subst (FoundInstalled table_id) e (entry_of-FoundInstalled table_id),
)

pipeline_standard_process-Returns_example :
    Returns {0, 0}
      (pipeline_standard_process
        (λ bytes. 5)
        65534
        1535
        77
        true
        0
        two_tables
        tcp_key
        (record { actx = fresh; stats = [] }))
      (λ out. Unit)
pipeline_standard_process-Returns_example =
    pipeline_standard_process-Returns one_group 0 1 (λ bytes. 5) 65534 1535 77 true 0 two_tables
      two_tables-AllInstalled tcp_key (record { actx = fresh; stats = [] })

pipeline_standard_process_run :
    let out =
      pipeline_standard_process
        (λ bytes. 5)
        65534
        1535
        77
        true
        0
        two_tables
        tcp_key
        (record { actx = fresh; stats = [] }) in
    elim out as (λ x. List ℕ) [ none ↦ [] | some w ↦ w.stats ] ≡ 0 ∷ 70 ∷ 3 ∷ []
unfolding pipeline_standard_process
pipeline_standard_process_run = refl
