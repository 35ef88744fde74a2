-- ===== src/Barrier/Defer.antt =====
-- A deferred revalidation is pending until it runs: the connection is blocked, and the timer that
-- runs it in the end is armed.
use ivs.Base.{
  ℕ, zero, suc, ◌+◌, ◌≤◌, ◌<◌, ◌≡◌, refl, ◌∙◌, ap, ◌≢◌, ◌⊎◌, Bool, true, false, Option, none, some,
  List, [], ◌∷◌, arith, ◌==◌, if◌then◌else◌, length, set, Returns, Bool-cases, inl, inr, length-set,
  ==_refl, ==_ne, sym, ◌++◌, append_assoc,
}
use ivs.Barrier.{
  State, Event, block_barrier, unblock_barrier, register_timer, unregister_timer, invalidate_all,
  upcall_respawn, Search, already_blocked, chosen, arm_timer, search, unblocked, unblock_events,
  revalidate, block_at, defer_revalidation, is_blocked, barrier_received, max_blocked_cxns,
}

module _ (unspecified : ℕ) (cxn_invalid : ℕ → Bool) where
  -- No connection waits.
  abbrev pub is_idle : List ℕ → Bool
  is_idle [] = true
  is_idle (c ∷ cs) = if c == unspecified then is_idle cs else false

  -- The timer is registered: the newest of its events is a registration.
  abbrev pub timer_runs : List Event → Bool
  timer_runs [] = false
  timer_runs (register_timer ms ∷ events) = true
  timer_runs (unregister_timer ∷ events) = false
  timer_runs (block_barrier c ∷ events) = timer_runs events
  timer_runs (unblock_barrier c ∷ events) = timer_runs events
  timer_runs (invalidate_all ∷ events) = timer_runs events
  timer_runs (upcall_respawn ∷ events) = timer_runs events

  -- The barrier of a connection is blocked: the newest of its events blocks it.
  abbrev pub is_held : ℕ → List Event → Bool
  is_held cxn [] = false
  is_held cxn (register_timer ms ∷ events) = is_held cxn events
  is_held cxn (unregister_timer ∷ events) = is_held cxn events
  is_held cxn (block_barrier c ∷ events) = if c == cxn then true else is_held cxn events
  is_held cxn (unblock_barrier c ∷ events) = if c == cxn then false else is_held cxn events
  is_held cxn (invalidate_all ∷ events) = is_held cxn events
  is_held cxn (upcall_respawn ∷ events) = is_held cxn events

  -- The array has its eight places, and while a connection waits the timer is armed. The flag says
  -- whether the timer is registered, and a connection that waits has its barrier blocked.
  pub record IsArmed (st : State) : Type 0 where
    pub places : length st.blocked_cxns ≡ max_blocked_cxns
    pub armed : is_idle st.blocked_cxns ≡ false → st.timer_active ≡ true
    pub runs : timer_runs st.trace ≡ st.timer_active
    pub held :
        (c : ℕ)
        → c ≢ unspecified
        → is_blocked unspecified cxn_invalid c st.blocked_cxns ≡ true
        → is_held c st.trace ≡ true

  unblocked-idle : (cs : List ℕ) → is_idle (unblocked unspecified cxn_invalid cs) ≡ true
  unfolding unblocked
  unblocked-idle [] = refl
  unblocked-idle (c ∷ cs) = ground (arith, unblocked-idle cs)

  length-unblocked : (cs : List ℕ) → length (unblocked unspecified cxn_invalid cs) ≡ length cs
  unfolding unblocked
  length-unblocked [] = refl
  length-unblocked (c ∷ cs) = ap suc (length-unblocked cs)

  unblocked-blocked :
      (c : ℕ) (cs : List ℕ)
      → c ≢ unspecified
      → is_blocked unspecified cxn_invalid c (unblocked unspecified cxn_invalid cs) ≡ false
  unfolding unblocked is_blocked
  unblocked-blocked c [] named = refl
  unblocked-blocked c (d ∷ cs) named =
      let apart = ==_ne unspecified c (λ e. named (sym e)) in
      ground (arith, unblocked-blocked c cs named, apart)

  unblock_events-timer_runs :
      (cs : List ℕ) (trace : List Event)
      → timer_runs (unblock_events unspecified cxn_invalid cs trace) ≡ timer_runs trace
  unfolding unblock_events
  unblock_events-timer_runs [] trace = refl
  unblock_events-timer_runs (c ∷ cs) trace = ground (
    arith,
    unblock_events-timer_runs cs trace,
    unblock_events-timer_runs cs (unblock_barrier c ∷ trace),
  )

  -- The loop releases the connections of the array.
  unblock_events-is_held :
      (x : ℕ) (cs : List ℕ) (trace : List Event)
      → x ≢ unspecified
      → is_held x (unblock_events unspecified cxn_invalid cs trace)
        ≡ (if is_blocked unspecified cxn_invalid x cs then false else is_held x trace)
  unfolding unblock_events is_blocked
  unblock_events-is_held x [] trace named = refl
  unblock_events-is_held x (c ∷ cs) trace named = ground (
    arith,
    unblock_events-is_held x cs trace named,
    unblock_events-is_held x cs (unblock_barrier c ∷ trace) named,
  )

  unblock_events-++ :
      (cs : List ℕ) (trace : List Event)
      → (later : List Event) × (unblock_events unspecified cxn_invalid cs trace ≡ later ++ trace)
  unfolding unblock_events
  unblock_events-++ [] trace = ([], refl)
  unblock_events-++ (c ∷ cs) trace = elim (Bool-cases (c == unspecified)) [
    | inl none_waits ↦ rw none_waits (unblock_events-++ cs trace)
    | inr waits ↦
        let (later, e) = unblock_events-++ cs (unblock_barrier c ∷ trace) in
        rw waits (
          later ++ unblock_barrier c ∷ [],
          e ∙ sym (append_assoc later (unblock_barrier c ∷ []) trace),
        )
  ]

  -- What a revalidation leaves: no connection waits, the timer is not registered, the connections
  -- that waited are released, and the flows were invalidated and the upcall threads respawned.
  pub record IsReleased (st st' : State) : Type 0 where
    pub idle : is_idle st'.blocked_cxns ≡ true
    pub off : st'.timer_active ≡ false
    pub stopped : timer_runs st'.trace ≡ false
    pub released :
        (c : ℕ)
        → c ≢ unspecified
        → is_blocked unspecified cxn_invalid c st.blocked_cxns ≡ true
        → is_held c st'.trace ≡ false
    pub revalidated :
        (later : List Event) × (st'.trace ≡ later ++ upcall_respawn ∷ invalidate_all ∷ st.trace)

  revalidate-IsReleased :
      (st : State)
      → IsArmed st
      → let st' = revalidate unspecified cxn_invalid st in IsArmed st' × IsReleased st st'
  unfolding revalidate
  revalidate-IsReleased st v =
      let events : List Event = upcall_respawn ∷ invalidate_all ∷ st.trace in
      let (later, e) = unblock_events-++ st.blocked_cxns events in
      let timer = unblock_events-timer_runs st.blocked_cxns events in
      elim (Bool-cases st.timer_active) [
        | inl on ↦ (
          record {
            places = length-unblocked st.blocked_cxns ∙ v.places;
            armed = λ h. ground (arith, unblocked-idle st.blocked_cxns);
            runs = rw on refl;
            held =
                λ c named h. absurd (ground (arith, h, unblocked-blocked c st.blocked_cxns named));
          },
          record {
            idle = unblocked-idle st.blocked_cxns;
            off = rw on refl;
            stopped = rw on refl;
            released = λ c named h.
                rw on (unblock_events-is_held c st.blocked_cxns events named ∙ rw h refl);
            revalidated =
                rw on (unregister_timer ∷ later, ap (λ (t : List Event). unregister_timer ∷ t) e);
          },
        )
        | inr off ↦ (
          record {
            places = length-unblocked st.blocked_cxns ∙ v.places;
            armed = λ h. ground (arith, unblocked-idle st.blocked_cxns);
            runs = rw off (timer ∙ v.runs ∙ off);
            held =
                λ c named h. absurd (ground (arith, h, unblocked-blocked c st.blocked_cxns named));
          },
          record {
            idle = unblocked-idle st.blocked_cxns;
            off = rw off refl;
            stopped = rw off (timer ∙ v.runs ∙ off);
            released = λ c named h.
                rw off (unblock_events-is_held c st.blocked_cxns events named ∙ rw h refl);
            revalidated = rw off (later, e);
          },
        )
      ]

  -- What the search says of the array from its index on.
  abbrev Searched : ℕ → ℕ → List ℕ → Option ℕ → Search → Type 0
  Searched cxn i cs place r =
      ((r ≡ already_blocked) × (is_blocked unspecified cxn_invalid cxn cs ≡ true))
      ⊎ ((j : ℕ) × (r ≡ chosen (some j)) × ((place ≡ some j) ⊎ (i ≤ j) × (j < i + length cs)))
      ⊎ (r ≡ chosen none)
        × (place ≡ none)
        × (is_blocked unspecified cxn_invalid unspecified cs ≡ false)

  search-Searched :
      (cxn i : ℕ) (cs : List ℕ) (place : Option ℕ)
      → Searched cxn i cs place (search unspecified cxn_invalid cxn i cs place)
  unfolding search is_blocked
  search-Searched cxn i [] none = inr (inr (refl, refl, refl))
  search-Searched cxn i [] (some j) = inr (inl (j, refl, inl refl))
  search-Searched cxn i (c ∷ cs) place =
      ground (arith, search-Searched cxn (i + 1) cs place, search-Searched cxn (i + 1) cs (some i))

  abbrev pub IsWaiting : ℕ → State → Type 0
  IsWaiting cxn st =
      IsArmed st
      × (is_blocked unspecified cxn_invalid cxn st.blocked_cxns ≡ true)
      × (timer_runs st.trace ≡ true)
      × (is_held cxn st.trace ≡ true)

  is_blocked-is_idle :
      (cxn : ℕ) (cs : List ℕ)
      → cxn ≢ unspecified
      → is_blocked unspecified cxn_invalid cxn cs ≡ true
      → is_idle cs ≡ false
  unfolding is_blocked
  is_blocked-is_idle cxn [] named h = ground arith
  is_blocked-is_idle cxn (c ∷ cs) named h = ground (arith, is_blocked-is_idle cxn cs named)

  is_blocked-set :
      (cxn i : ℕ) (cs : List ℕ)
      → i < length cs
      → is_blocked unspecified cxn_invalid cxn (set cs i cxn) ≡ true
  unfolding is_blocked
  is_blocked-set cxn i [] lt = elim lt [ ]
  is_blocked-set cxn zero (c ∷ cs) lt = ground (arith, ==_refl cxn)
  is_blocked-set cxn (suc i) (c ∷ cs) lt = ground (arith, is_blocked-set cxn i cs (omega arith))

  -- A connection of the array after a write was there before, or is the one written.
  is_blocked-set_inv :
      (c cxn i : ℕ) (cs : List ℕ)
      → is_blocked unspecified cxn_invalid c (set cs i cxn) ≡ true
      → (cxn == c) ≡ false
      → is_blocked unspecified cxn_invalid c cs ≡ true
  unfolding is_blocked
  is_blocked-set_inv c cxn i [] h other = h
  is_blocked-set_inv c cxn zero (d ∷ cs) h other = ground arith
  is_blocked-set_inv c cxn (suc i) (d ∷ cs) h other = ground (arith, is_blocked-set_inv c cxn i cs)

  -- The array of a context where the connection is already blocked.
  already-IsWaiting :
      (cxn : ℕ) (st : State)
      → IsArmed st
      → cxn ≢ unspecified
      → is_blocked unspecified cxn_invalid cxn st.blocked_cxns ≡ true
      → IsWaiting cxn st
  already-IsWaiting cxn st v named blocked = (
    v,
    blocked,
    v.runs ∙ v.armed (is_blocked-is_idle cxn st.blocked_cxns named blocked),
    v.held cxn named blocked,
  )

  block_at-IsWaiting :
      (cxn i : ℕ) (st : State)
      → IsArmed st
      → i < max_blocked_cxns
      → IsWaiting cxn (block_at unspecified cxn_invalid cxn i st)
  unfolding block_at arm_timer
  block_at-IsWaiting cxn i st v lt =
      let blocked = is_blocked-set cxn i st.blocked_cxns (ground (arith, v.places)) in
      let places = length-set st.blocked_cxns i cxn ∙ v.places in
      let held : (c : ℕ)
          → c ≢ unspecified
          → is_blocked unspecified cxn_invalid c (set st.blocked_cxns i cxn) ≡ true
          → is_held c (block_barrier cxn ∷ st.trace) ≡ true =
        λ c named h. elim (Bool-cases (cxn == c)) [
          | inl same ↦ rw same refl
          | inr other ↦
              rw other (v.held c named (is_blocked-set_inv c cxn i st.blocked_cxns h other))
        ] in
      let own : is_held cxn (block_barrier cxn ∷ st.trace) ≡ true = rw (==_refl cxn) refl in
      elim (Bool-cases st.timer_active) [
        | inl on ↦ rw on (
          record { places = places; armed = λ h. refl; runs = v.runs ∙ on; held = held },
          blocked,
          v.runs ∙ on,
          own,
        )
        | inr off ↦ rw off (
          record { places = places; armed = λ h. refl; runs = refl; held = held },
          blocked,
          refl,
          own,
        )
      ]

  -- Where a place is free, one call blocks the connection.
  defer_revalidation-free :
      (depth cxn : ℕ) (st : State)
      → IsArmed st
      → cxn_invalid cxn ≡ false
      → cxn ≢ unspecified
      → is_blocked unspecified cxn_invalid unspecified st.blocked_cxns ≡ true
      → Returns (defer_revalidation unspecified cxn_invalid (suc depth) cxn st) (IsWaiting cxn)
  unfolding defer_revalidation
  defer_revalidation-free depth cxn st v valid named free =
      rw valid (elim (search-Searched cxn 0 st.blocked_cxns none) [
        | inl (r, blocked) ↦ rw r (st, refl, already-IsWaiting cxn st v named blocked)
        | inr (inl (j, r, inl p)) ↦ absurd (ground arith)
        | inr (inl (j, r, inr (lo, hi))) ↦
            rw r (_, refl, block_at-IsWaiting cxn j st v (ground (arith, v.places)))
        | inr (inr (r, p, full)) ↦ absurd (ground arith)
      ])

  -- The array of a revalidation has a free place.
  unblocked-free :
      (cs : List ℕ)
      → 0 < length cs
      → is_blocked unspecified cxn_invalid unspecified (unblocked unspecified cxn_invalid cs) ≡ true
  unfolding unblocked is_blocked
  unblocked-free [] h = elim h [ ]
  unblocked-free (c ∷ cs) h = ground (arith, ==_refl unspecified)

  -- For a valid connection and an array of eight places, where the timer is registered while a
  -- connection waits, its flag says so, and the barriers of waiting connections are blocked,
  -- ind_ovs_barrier_defer_revalidation returns within two calls of itself: the connection is in
  -- the array, its barrier is blocked and the timer is registered by the trace of the calls made,
  -- and all of this holds as before.
  pub defer_revalidation-IsWaiting :
      (depth cxn : ℕ) (st : State)
      → IsArmed st
      → cxn_invalid cxn ≡ false
      → cxn ≢ unspecified
      → Returns
          (defer_revalidation unspecified cxn_invalid (suc (suc depth)) cxn st)
          (IsWaiting cxn)
  unfolding defer_revalidation revalidate
  defer_revalidation-IsWaiting depth cxn st v valid named =
      let full = record st { blocked_cxns_full = st.blocked_cxns_full + 1 } in
      let full-IsArmed : IsArmed full = record {
        places = v.places;
        armed = v.armed;
        runs = v.runs;
        held = v.held;
      } in
      let (armed, _) = revalidate-IsReleased full full-IsArmed in
      let retried =
        defer_revalidation-free depth cxn (revalidate unspecified cxn_invalid full) armed valid
          named (unblocked-free st.blocked_cxns (ground (arith, v.places))) in
      elim (Bool-cases (is_blocked unspecified cxn_invalid unspecified st.blocked_cxns)) [
        | inl free ↦ defer_revalidation-free (suc depth) cxn st v valid named free
        | inr full ↦ rw valid (elim (search-Searched cxn 0 st.blocked_cxns none) [
          | inl (r, blocked) ↦ rw r (st, refl, already-IsWaiting cxn st v named blocked)
          | inr (inl (j, r, inl p)) ↦ absurd (ground arith)
          | inr (inl (j, r, inr (lo, hi))) ↦
              rw r (_, refl, block_at-IsWaiting cxn j st v (ground (arith, v.places)))
          | inr (inr (r, p, no_place)) ↦ rw r retried
        ])
      ]

  -- Where the timer is registered while a connection waits, its flag says so, and the barriers of
  -- waiting connections are blocked, barrier_received keeps that. If its connection waits, then
  -- the flows are invalidated, the upcall threads are respawned, the barriers of all that waited
  -- are unblocked and the timer is unregistered, by the trace of the calls made, and no connection
  -- waits afterwards; if not, nothing changes.
  pub barrier_received-IsArmed :
      (cxn : ℕ) (st : State)
      → IsArmed st
      → let st' = barrier_received unspecified cxn_invalid cxn st in
        IsArmed st'
        × (if is_blocked unspecified cxn_invalid cxn st.blocked_cxns
            then IsReleased st st'
            else st' ≡ st)
  unfolding barrier_received
  barrier_received-IsArmed cxn st v =
      elim (Bool-cases (is_blocked unspecified cxn_invalid cxn st.blocked_cxns)) [
        | inl h ↦ rw h (revalidate-IsReleased st v)
        | inr h ↦ rw h (v, refl)
      ]
