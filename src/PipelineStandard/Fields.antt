-- ===== src/PipelineStandard/Fields.antt =====
-- What output attributes and changes of a header do to a good context.
use ivs.Base.{ℕ, ◌≡◌, ◌∙◌, inl, inr, [], ◌∷◌, ◌++◌, Bool-cases}
use ivs.Action.{
  Bytes, Context, Attr, Field, attr_bitmap_test, key_attr, mask_in, append,
  commit_set_field_actions, ethernet_field, ipv4_field, ipv6_field, tcp_field, udp_field,
}
use ivs.Action.Packet.{Packet, run, run_attr, run-append}
use ivs.Action.Commit.{commit_set_field_actions-IsCurrent, IsCurrent-IsSynced}
use ivs.Action.SetField.{set_if_populated, put_ethernet, put_network, put_transport}
use ivs.Action.Sync.{
  set_ethernet-IsSynced, set_ipv4-IsSynced, set_ipv6-IsSynced, set_tcp-IsSynced, set_udp-IsSynced,
}
use ivs.Action.Tag.{IsGood}

-- A commit and an attribute that leaves the packet alone.
pub output-IsGood :
    (p : Packet) (a : Attr) (ctx : Context)
    → ((q : Packet) → run_attr a q ≡ q)
    → IsGood p ctx
    → IsGood p (append a (commit_set_field_actions ctx))
output-IsGood p a ctx still v =
    let committed = commit_set_field_actions ctx in
    let (current, same_key, unmodified) = commit_set_field_actions-IsCurrent p ctx v.synced in
    let same_packet : run (committed.msg ++ a ∷ []) p ≡ run committed.msg p =
      run-append committed.msg (a ∷ []) p ∙ still (run committed.msg p) in
    record {
      synced = IsCurrent-IsSynced p (append a committed) (rw (same_packet, same_key) current);
      layered = rw same_key v.layered;
    }

pub mask_in-IsGood :
    (p : Packet) (f : Field) (ctx : Context) → IsGood p ctx → IsGood p (mask_in f ctx)
unfolding mask_in
mask_in-IsGood p f ctx v = record {
  synced = record {
    one_tag = v.synced.one_tag;
    same_tag = v.synced.same_tag;
    same_field = v.synced.same_field;
  };
  layered = v.layered;
}

pub set_ethernet-IsGood :
    (p : Packet) (offset : ℕ) (bytes : Bytes) (ctx : Context)
    → IsGood p ctx
    → IsGood p (set_if_populated ethernet_field (put_ethernet offset bytes) ctx)
unfolding set_if_populated
set_ethernet-IsGood p offset bytes ctx v =
    let synced = set_ethernet-IsSynced p offset bytes ctx v.layered v.synced in
    elim (Bool-cases (attr_bitmap_test ctx.current_key.populated (key_attr ethernet_field))) [
      | inl on ↦ record {
        synced = synced;
        layered = rw on (record {
          one_network = v.layered.one_network;
          one_transport = v.layered.one_transport;
        });
      }
      | inr off ↦ record { synced = synced; layered = rw off v.layered }
    ]

pub set_ipv4-IsGood :
    (p : Packet) (offset : ℕ) (bytes : Bytes) (ctx : Context)
    → IsGood p ctx
    → IsGood p (set_if_populated ipv4_field (put_network offset bytes) ctx)
unfolding set_if_populated
set_ipv4-IsGood p offset bytes ctx v =
    let synced = set_ipv4-IsSynced p offset bytes ctx v.layered v.synced in
    elim (Bool-cases (attr_bitmap_test ctx.current_key.populated (key_attr ipv4_field))) [
      | inl on ↦ record {
        synced = synced;
        layered = rw on (record {
          one_network = v.layered.one_network;
          one_transport = v.layered.one_transport;
        });
      }
      | inr off ↦ record { synced = synced; layered = rw off v.layered }
    ]

pub set_ipv6-IsGood :
    (p : Packet) (offset : ℕ) (bytes : Bytes) (ctx : Context)
    → IsGood p ctx
    → IsGood p (set_if_populated ipv6_field (put_network offset bytes) ctx)
unfolding set_if_populated
set_ipv6-IsGood p offset bytes ctx v =
    let synced = set_ipv6-IsSynced p offset bytes ctx v.layered v.synced in
    elim (Bool-cases (attr_bitmap_test ctx.current_key.populated (key_attr ipv6_field))) [
      | inl on ↦ record {
        synced = synced;
        layered = rw on (record {
          one_network = v.layered.one_network;
          one_transport = v.layered.one_transport;
        });
      }
      | inr off ↦ record { synced = synced; layered = rw off v.layered }
    ]

pub set_tcp-IsGood :
    (p : Packet) (offset : ℕ) (bytes : Bytes) (ctx : Context)
    → IsGood p ctx
    → IsGood p (set_if_populated tcp_field (put_transport offset bytes) ctx)
unfolding set_if_populated
set_tcp-IsGood p offset bytes ctx v =
    let synced = set_tcp-IsSynced p offset bytes ctx v.layered v.synced in
    elim (Bool-cases (attr_bitmap_test ctx.current_key.populated (key_attr tcp_field))) [
      | inl on ↦ record {
        synced = synced;
        layered = rw on (record {
          one_network = v.layered.one_network;
          one_transport = v.layered.one_transport;
        });
      }
      | inr off ↦ record { synced = synced; layered = rw off v.layered }
    ]

pub set_udp-IsGood :
    (p : Packet) (offset : ℕ) (bytes : Bytes) (ctx : Context)
    → IsGood p ctx
    → IsGood p (set_if_populated udp_field (put_transport offset bytes) ctx)
unfolding set_if_populated
set_udp-IsGood p offset bytes ctx v =
    let synced = set_udp-IsSynced p offset bytes ctx v.layered v.synced in
    elim (Bool-cases (attr_bitmap_test ctx.current_key.populated (key_attr udp_field))) [
      | inl on ↦ record {
        synced = synced;
        layered = rw on (record {
          one_network = v.layered.one_network;
          one_transport = v.layered.one_transport;
        });
      }
      | inr off ↦ record { synced = synced; layered = rw off v.layered }
    ]
