-- ===== src/Dncp/Publish/Tests.antt =====
-- Tests of the flush: the local TLV 1 is new, the published one is TLV 2.
use mathlib.Core.Option.{some-injective}
use hnetd.Common.{ℕ, ◌≡◌, refl, true, false, some, List, [], ◌∷◌}
use hnetd.Bitops.{Bytes, memcmp}
use hnetd.Tlv.{tlv_len, tlv_raw_len, tlv_pad_len, tlv_attr_equal}
use hnetd.Tlv.Buf.{fill_pad}
use hnetd.Dncp.Graph.{Node, Net}
use hnetd.Dncp.Publish.{Local, Outside, self_flush, packed, packed_data, own_container}
use hnetd.Dncp.Publish.Sync.{is_published, Synced, self_flush-Synced, self_flush_stale}

abbrev tlv : ℕ → Bytes
tlv x = 0 ∷ 9 ∷ 0 ∷ 1 ∷ x ∷ 0 ∷ 0 ∷ 0 ∷ []

abbrev node : Node
node = record {
  node_id = 10 ∷ [];
  update_number = 7;
  origination_time = 1;
  expiration_time = 1000000;
  tlv_container = some (0 ∷ 0 ∷ 0 ∷ 8 ∷ tlv 2);
  is_valid = true;
}

abbrev net : Net
net = record {
  graph = record {
    nodes = 0 ∷ [];
    node = λ _. node;
    ni_len = 1;
    types = record { index_of = []; num_indexes = 0 };
  };
  own_node = some 0;
  version = 4;
  node_version = λ _. 4;
  last_reachable_prune = λ _. 500;
  now = 100000;
  last_prune = 500;
  next_prune = 0;
  grace_interval = 60000;
  network_hash_dirty = false;
  graph_dirty = false;
  immediate_scheduled = false;
  told = [];
}

abbrev local : Local
local = record { net = net; own = 0; tlvs = tlv 1 ∷ []; tlvs_dirty = true; republish_tlvs = false }

-- The callbacks add a TLV, or take the new one back.
abbrev adds : Outside
adds = record { callback = λ tlvs. some (tlv 3 ∷ tlvs); first_fits = true; second_fits = true }

abbrev restores : Outside
restores = record { callback = λ _. some (tlv 2 ∷ []); first_fits = true; second_fits = true }

new_unpublished : is_published local (tlv 1 ∷ []) ≡ false
unfolding packed packed_data fill_pad own_container tlv_attr_equal tlv_pad_len tlv_raw_len tlv_len
    memcmp
new_unpublished = refl

added_unpublished : is_published local (tlv 3 ∷ tlv 1 ∷ []) ≡ false
unfolding packed packed_data fill_pad own_container tlv_attr_equal tlv_pad_len tlv_raw_len tlv_len
    memcmp
added_unpublished = refl

old_published : is_published local (tlv 2 ∷ []) ≡ true
unfolding packed packed_data fill_pad own_container tlv_attr_equal tlv_pad_len tlv_raw_len tlv_len
    memcmp
old_published = refl

adds_fresh :
    (tlvs : List Bytes) → adds.callback local.tlvs ≡ some tlvs → is_published local tlvs ≡ false
adds_fresh tlvs e = rw (← some-injective _ _ e) added_unpublished

self_flush-Synced_example : Synced (self_flush (λ _ _. true) adds local)
self_flush-Synced_example =
    self_flush-Synced (λ _ _. true) adds local (λ d. absurd (cc d)) refl refl adds_fresh

self_flush_stale_example :
    let s = self_flush (λ _ _. true) restores local in
    (s.tlvs ≡ tlv 2 ∷ []) × (s.tlvs_dirty ≡ false) × (own_container s ≡ some (packed (tlv 1 ∷ [])))
self_flush_stale_example =
    self_flush_stale (λ _ _. true) restores local (tlv 2 ∷ []) refl new_unpublished refl refl refl
      old_published
