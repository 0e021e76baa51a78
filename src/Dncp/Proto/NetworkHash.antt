-- ===== src/Dncp/Proto/NetworkHash.antt =====
-- The network hash (`dncp_calculate_network_hash` and `dncp_calculate_node_data_hash` in src/dncp.c).
use hnetd.Common.{
  ℕ, ◌≡◌, refl, sym, ap, ◌∙◌, inl, inr, Bool, true, false, not, Option, none, some, List, [], ◌∷◌,
  ◌++◌, arith, if◌then◌else◌, ==_refl, ==_iff, Bool-cases, take,
}
use hnetd.Bitops.{Bytes}
use hnetd.Dncp.Graph.{Net, is_reachable, same_id, tlv_peer}
use hnetd.Dncp.Graph.Flush.{if_both}
use hnetd.Dncp.Proto.{
  State, Ext, node_of, set_net, to_be32, container_data, calculate_node_data_hash, hash_nodes,
  calculate_network_hash, trickle_reset, reset_eps, reset_peers, reset_peer, modify_ep, modify_peer,
  find_ep, ni_len_of, Ep, PeerData,
}

-- A hash that is not dirty is that of the node's data.
abbrev pub HashesHold : Ext → State → Type 0
HashesHold x s =
    (k : ℕ)
    → s.node_data_hash_dirty k ≡ false
    → s.node_data_hash k ≡ x.hash (container_data (node_of s k).tlv_container)

-- What the network hash is the hash of: the numbers and the hashes of the data of the reachable nodes, in
-- their order.
pub view : Ext → Net → ℕ → List ℕ → Bytes
view x o hash_len [] = []
view x o hash_len (k ∷ ks) =
    let n = o.graph.node k in
    if is_reachable o k
    then to_be32 n.update_number
      ++ (take hash_len (x.hash (container_data n.tlv_container)) ++ view x o hash_len ks)
    else view x o hash_len ks

-- Calculating the hash of a node's data leaves all but the hashes.
calculate_same :
    (x : Ext) (k : ℕ) (s : State)
    → ((calculate_node_data_hash x k s).local ≡ s.local)
      × ((calculate_node_data_hash x k s).hash_len ≡ s.hash_len)
unfolding calculate_node_data_hash
calculate_same x k s = (ground arith, ground arith)

calculated :
    (x : Ext) (k : ℕ) (s : State)
    → HashesHold x s
    → (calculate_node_data_hash x k s).node_data_hash k
      ≡ x.hash (container_data (node_of s k).tlv_container)
unfolding calculate_node_data_hash
calculated x k s v = ground (arith, v k, ==_refl k)

calculate-HashesHold :
    (x : Ext) (k : ℕ) (s : State) → HashesHold x s → HashesHold x (calculate_node_data_hash x k s)
unfolding calculate_node_data_hash
calculate-HashesHold x k s v j = ground (arith, v j, ==_iff j k)

-- What calculating the hashes of nodes keeps.
record Hashed (x : Ext) (s s' : State) : Type 0 where
  local : s'.local ≡ s.local
  hash_len : s'.hash_len ≡ s.hash_len
  network_hash : s'.network_hash ≡ s.network_hash
  holds : HashesHold x s → HashesHold x s'

Hashed-trans : (x : Ext) (s t u : State) → Hashed x s t → Hashed x t u → Hashed x s u
Hashed-trans x s t u e f = record {
  local = f.local ∙ e.local;
  hash_len = f.hash_len ∙ e.hash_len;
  network_hash = f.network_hash ∙ e.network_hash;
  holds = λ v. f.holds (e.holds v);
}

calculate-Hashed : (x : Ext) (k : ℕ) (s : State) → Hashed x s (calculate_node_data_hash x k s)
unfolding calculate_node_data_hash
calculate-Hashed x k s = record {
  local = ground arith;
  hash_len = ground arith;
  network_hash = ground arith;
  holds = calculate-HashesHold x k s;
}

-- The state behind the first node.
abbrev next : Ext → ℕ → State → State
next x k s = if is_reachable s.local.net k then calculate_node_data_hash x k s else s

next-Hashed : (x : Ext) (k : ℕ) (s : State) → Hashed x s (next x k s)
next-Hashed x k s = elim (Bool-cases (is_reachable s.local.net k)) [
  | inl e ↦ rw e (calculate-Hashed x k s)
  | inr e ↦ rw e (record { local = refl; hash_len = refl; network_hash = refl; holds = λ v. v })
]

hash_nodes-Hashed : (x : Ext) (ks : List ℕ) (s : State) → Hashed x s (hash_nodes x ks s).0
unfolding hash_nodes
hash_nodes-Hashed x [] s = record {
  local = refl;
  hash_len = refl;
  network_hash = refl;
  holds = λ v. v;
}
hash_nodes-Hashed x (k ∷ ks) s =
    Hashed-trans x s (next x k s) (hash_nodes x ks (next x k s)).0 (next-Hashed x k s)
      (hash_nodes-Hashed x ks (next x k s))

if_then : (b : Bool) → b ≡ true → (x y : Bytes) → (if b then x else y) ≡ x
if_then b e x y = ground arith

if_else : (b : Bool) → b ≡ false → (x y : Bytes) → (if b then x else y) ≡ y
if_else b e x y = ground arith

hash_nodes-view :
    (x : Ext) (ks : List ℕ) (s : State)
    → HashesHold x s
    → (hash_nodes x ks s).1 ≡ view x s.local.net s.hash_len ks
unfolding hash_nodes view
hash_nodes-view x [] s v = refl
hash_nodes-view x (k ∷ ks) s v =
    let e = next-Hashed x k s in
    let rest =
      hash_nodes-view x ks (next x k s) (e.holds v)
      ∙ (λ i. view x (e.local i).net (e.hash_len i) ks) in
    let hash = λ (f : is_reachable s.local.net k ≡ true).
      ap (λ b. (if b then calculate_node_data_hash x k s else s).node_data_hash k) f
      ∙ calculated x k s v in
    elim (Bool-cases (is_reachable s.local.net k)) [
      | inr f ↦ if_else _ f _ _ ∙ rest ∙ sym (if_else _ f _ _)
      | inl f ↦
          if_then _ f _ _
          ∙ (λ i.
              to_be32 ((e.local i).net.graph.node k).update_number
              ++ (take s.hash_len (hash f i) ++ rest i))
          ∙ sym (if_then _ f _ _)
    ]

-- What the reset of the timers keeps.
record Reset (s s' : State) : Type 0 where
  local : s'.local ≡ s.local
  network_hash : s'.network_hash ≡ s.network_hash
  hashes : s'.node_data_hash ≡ s.node_data_hash
  dirty : s'.node_data_hash_dirty ≡ s.node_data_hash_dirty

Reset-refl : (s : State) → Reset s s
Reset-refl s = record { local = refl; network_hash = refl; hashes = refl; dirty = refl }

Reset-trans : (s t u : State) → Reset s t → Reset t u → Reset s u
Reset-trans s t u e f = record {
  local = f.local ∙ e.local;
  network_hash = f.network_hash ∙ e.network_hash;
  hashes = f.hashes ∙ e.hashes;
  dirty = f.dirty ∙ e.dirty;
}

modify_ep-Reset : (l : ℕ) (f : Ep → Ep) (s : State) → Reset s (modify_ep l f s)
unfolding modify_ep
modify_ep-Reset l f s = record { local = refl; network_hash = refl; hashes = refl; dirty = refl }

modify_peer-Reset : (t : Bytes) (f : PeerData → PeerData) (s : State) → Reset s (modify_peer t f s)
unfolding modify_peer
modify_peer-Reset t f s = record { local = refl; network_hash = refl; hashes = refl; dirty = refl }

reset_eps-Reset : (x : Ext) (ls : List ℕ) (s : State) → Reset s (reset_eps x ls s)
unfolding reset_eps
reset_eps-Reset x [] s = Reset-refl s
reset_eps-Reset x (l ∷ ls) s =
    Reset-trans s _ (reset_eps x (l ∷ ls) s) (modify_ep-Reset l _ s) (reset_eps-Reset x ls _)

-- A step that is made only if there is a value.
Reset-some {ℓ} :
    {A : Type ℓ} (o : Option A) (s : State) (f : A → State)
    → ((a : A) → Reset s (f a))
    → Reset s (elim o as (λ _. State) [ none ↦ s | some a ↦ f a ])
Reset-some none s f e = Reset-refl s
Reset-some (some a) s f e = e a

reset_peers-Reset : (x : Ext) (ts : List Bytes) (s : State) → Reset s (reset_peers x ts s)
unfolding reset_peers reset_peer
reset_peers-Reset x [] s = Reset-refl s
reset_peers-Reset x (t ∷ ts) s =
    Reset-trans s _ (reset_peers x (t ∷ ts) s)
      (Reset-some (tlv_peer (ni_len_of s) t) s (λ ne. reset_peer x t ne s)
        (λ ne. Reset-some (find_ep s ne.ep_id s.eps) s _ (λ l. modify_peer-Reset t _ s)))
      (reset_peers-Reset x ts _)

trickle_reset-Reset : (x : Ext) (s : State) → Reset s (trickle_reset x s)
unfolding trickle_reset
trickle_reset-Reset x s =
    Reset-trans s (reset_eps x s.eps s) (trickle_reset x s) (reset_eps-Reset x s.eps s)
      (reset_peers-Reset x s.local.tlvs (reset_eps x s.eps s))

Reset-if : (b : Bool) (s t : State) → Reset s t → Reset s (if b then s else t)
Reset-if true s t e = Reset-refl s
Reset-if false s t e = e

unless_clean :
    (P : State → Type 0) (b : Bool) → b ≡ true → (s t : State) → P t → P (if not b then s else t)
unless_clean P true e s t p = p
unless_clean P false e s t p = absurd (cc e)

-- The network hash, and what holds after it is calculated.
pub record IsHashed (x : Ext) (s s' : State) : Type 0 where
  pub network_hash :
      s'.network_hash ≡ x.hash (view x s.local.net s.hash_len s.local.net.graph.nodes)
  pub graph : s'.local.net.graph ≡ s.local.net.graph
  pub clean : s'.local.net.network_hash_dirty ≡ false
  pub holds : HashesHold x s'

module _ (x : Ext) (s : State) (v : HashesHold x s) where
  abbrev hashed : State
  hashed = record (hash_nodes x s.local.net.graph.nodes s).0 {
    network_hash = x.hash (hash_nodes x s.local.net.graph.nodes s).1;
  }

  set_clean : State → State
  set_clean s' = set_net (λ o. record o { network_hash_dirty = false }) s'

  cleaned-IsHashed : (s' : State) → Reset hashed s' → IsHashed x s (set_clean s')
  unfolding set_clean set_net
  cleaned-IsHashed s' e =
      let h = hash_nodes-Hashed x s.local.net.graph.nodes s in
      let same = e.local ∙ h.local in
      record {
        network_hash = e.network_hash ∙ ap x.hash (hash_nodes-view x s.local.net.graph.nodes s v);
        graph = ap (λ l. l.net.graph) same;
        clean = refl;
        holds = λ k c.
            ap (λ f. f k) e.hashes
            ∙ h.holds v k (sym (ap (λ f. f k) e.dirty) ∙ c)
            ∙ ap (λ l. x.hash (container_data (l.net.graph.node k).tlv_container)) (sym e.local);
      }

  -- Calculating a dirty network hash gives the hash of the view of the reachable nodes, if the hashes of nodes'
  -- data that are not dirty are right; it keeps the nodes, and leaves the right hashes, and nothing dirty.
  pub calculate_network_hash-view :
      s.local.net.network_hash_dirty ≡ true → IsHashed x s (calculate_network_hash x s)
  unfolding calculate_network_hash set_clean
  calculate_network_hash-view d =
      let new = same_id s.hash_len s.network_hash hashed.network_hash in
      unless_clean (IsHashed x s) s.local.net.network_hash_dirty d s _ (
        cleaned-IsHashed (if new then hashed else trickle_reset x hashed)
          (Reset-if new hashed (trickle_reset x hashed) (trickle_reset-Reset x hashed)))

-- Also a hash that is not dirty keeps the nodes.
pub calculate-graph :
    (x : Ext) (s : State) → (calculate_network_hash x s).local.net.graph ≡ s.local.net.graph
unfolding calculate_network_hash set_net
calculate-graph x s =
    let (s1, buf) = hash_nodes x s.local.net.graph.nodes s in
    let s2 = record s1 { network_hash = x.hash buf } in
    let b = same_id s.hash_len s.network_hash (x.hash buf) in
    let e = Reset-if b s2 (trickle_reset x s2) (trickle_reset-Reset x s2) in
    if_both (λ (s' : State). s'.local.net.graph ≡ s.local.net.graph)
      (not s.local.net.network_hash_dirty) s _ refl
      (ap (λ l. l.net.graph) (e.local ∙ (hash_nodes-Hashed x s.local.net.graph.nodes s).local))
