-- ===== src/Dncp/Graph/Replace.antt =====
-- What `dncp_node_set` leaves (src/dncp.c).
use hnetd.Common.{
  ℕ, ◌≡◌, refl, ap, ◌∙◌, ◌≢◌, inl, inr, Bool, true, false, not, ◌&&◌, ◌||◌, Option, none, some,
  arith, ◌==◌, if◌then◌else◌, ==_refl, ne→==, ==_iff, Bool-cases,
}
use hnetd.Bitops.{Bytes}
use hnetd.Tlv.{tlv_attr_equal}
use hnetd.Pa.State.{is_some}
use hnetd.Dncp.Graph.{Net, Node, node_set, put_node, schedule, tell, Told, renumbered, replace_data}

pub schedule-graph : (o : Net) → (schedule o).graph ≡ o.graph
unfolding schedule tell
schedule-graph o = ground arith

pub schedule-now : (o : Net) → (schedule o).now ≡ o.now
unfolding schedule tell
schedule-now o = ground arith

tell-graph : (e : Told) (o : Net) → (tell e o).graph ≡ o.graph
unfolding tell
tell-graph e o = refl

pub put_node_own : (k : ℕ) (n : Node) (o : Net) → (put_node k n o).graph.node k ≡ n
unfolding put_node
put_node_own k n o = rw (==_refl k) refl

renumbered-tlv_container :
    (update_number t : ℕ) (n : Node)
    → (renumbered update_number t n).tlv_container ≡ n.tlv_container
unfolding renumbered
renumbered-tlv_container update_number t n = ground arith

replace_data-tlv_container :
    (k : ℕ) (n : Node) (a : Option Bytes) (valid : Bool) (o : Net)
    → ((replace_data k n a valid o).graph.node k).tlv_container ≡ a
unfolding replace_data
replace_data-tlv_container k n a valid o = ap (λ (m : Node). m.tlv_container) (put_node_own k _ _)

-- The data of node `k`.
abbrev pub data_of : ℕ → Net → Option Bytes
data_of k o = (o.graph.node k).tlv_container

scheduled_data : (k : ℕ) (c : Option Bytes) (o : Net) → data_of k o ≡ c → data_of k (schedule o) ≡ c
scheduled_data k c o e = ap (λ g. (g.node k).tlv_container) (schedule-graph o) ∙ e

abbrev dirtied : Net → Net
dirtied o = record o { network_hash_dirty = true }

-- The three ways of `node_set`.
node_set_spurious :
    (validates : ℕ → Bytes → Bool) (k u t : ℕ) (b : Bytes) (o : Net)
    → tlv_attr_equal (some b) (data_of k o) ≡ true
    → (u == (o.graph.node k).update_number) ≡ true
    → node_set validates k u t (some b) o ≡ o
unfolding node_set
node_set_spurious validates k u t b o s q = rw (s, node_set, q) refl

node_set-renumbered :
    (validates : ℕ → Bytes → Bool) (k u t : ℕ) (b : Bytes) (o : Net)
    → tlv_attr_equal (some b) (data_of k o) ≡ true
    → (u == (o.graph.node k).update_number) ≡ false
    → node_set validates k u t (some b) o
      ≡ schedule (dirtied (put_node k (renumbered u t (o.graph.node k)) o))
unfolding node_set
node_set-renumbered validates k u t b o s q = rw (s, node_set, q) refl

node_set_replaced :
    (validates : ℕ → Bytes → Bool) (k u t : ℕ) (b : Bytes) (o : Net)
    → tlv_attr_equal (some b) (data_of k o) ≡ false
    → node_set validates k u t (some b) o
      ≡ schedule
          (dirtied (replace_data k (renumbered u t (o.graph.node k)) (some b) (validates k b) o))
unfolding node_set
node_set_replaced validates k u t b o s = elim (Bool-cases (u == (o.graph.node k).update_number)) [
  | inl q ↦ rw (s, node_set, q) refl
  | inr q ↦ rw (s, node_set, q) refl
]

-- Setting a node's data keeps data that are equal, and replaces others.
pub node_set-tlv_container :
    (validates : ℕ → Bytes → Bool) (k update_number t : ℕ) (b : Bytes) (o : Net)
    → data_of k (node_set validates k update_number t (some b) o)
      ≡ (if tlv_attr_equal (some b) (data_of k o) then data_of k o else some b)
node_set-tlv_container validates k u t b o =
    let n = renumbered u t (o.graph.node k) in
    elim (Bool-cases (tlv_attr_equal (some b) (data_of k o))) [
      | inr s ↦ rw s (
          ap (data_of k) (node_set_replaced validates k u t b o s)
          ∙ scheduled_data k (some b) (dirtied (replace_data k n (some b) (validates k b) o))
              (replace_data-tlv_container k n (some b) (validates k b) o))
      | inl s ↦ elim (Bool-cases (u == (o.graph.node k).update_number)) [
        | inl q ↦ rw s (ap (data_of k) (node_set_spurious validates k u t b o s q))
        | inr q ↦ rw s (
            ap (data_of k) (node_set-renumbered validates k u t b o s q)
            ∙ scheduled_data k (data_of k o) (dirtied (put_node k n o)) (
                ap (λ (m : Node). m.tlv_container) (put_node_own k n o)
                ∙ renumbered-tlv_container u t (o.graph.node k)))
      ]
    ]

-- The other fields that setting a node's data sets.
abbrev number_of : ℕ → Net → ℕ
number_of k o = (o.graph.node k).update_number

renumbered-update_number :
    (update_number t : ℕ) (n : Node) → (renumbered update_number t n).update_number ≡ update_number
unfolding renumbered
renumbered-update_number update_number t n = ground arith

replace_data-update_number :
    (k : ℕ) (n : Node) (a : Option Bytes) (valid : Bool) (o : Net)
    → number_of k (replace_data k n a valid o) ≡ n.update_number
unfolding replace_data
replace_data-update_number k n a valid o = ap (λ (m : Node). m.update_number) (put_node_own k _ _)

scheduled_number : (k u : ℕ) (o : Net) → number_of k o ≡ u → number_of k (schedule o) ≡ u
scheduled_number k u o e = ap (λ g. (g.node k).update_number) (schedule-graph o) ∙ e

-- The test of `node_set` for a call that changes nothing.
abbrev spurious : ℕ → ℕ → Option Bytes → Net → Bool
spurious k u a o = u == number_of k o && (not (is_some a) || tlv_attr_equal a (data_of k o))

pub node_set-update_number :
    (validates : ℕ → Bytes → Bool) (k update_number t : ℕ) (a : Option Bytes) (o : Net)
    → number_of k (node_set validates k update_number t a o) ≡ update_number
unfolding node_set
node_set-update_number validates k u t a o =
    let n = renumbered u t (o.graph.node k) in
    let valid : Bool = elim a [ none ↦ true | some b ↦ validates k b ] in
    let renumbering = renumbered-update_number u t (o.graph.node k) in
    elim (Bool-cases (spurious k u a o)) [
      | inl q ↦ rw (q, node_set) (ground (arith, ==_iff u (number_of k o)))
      | inr q ↦ elim (Bool-cases (tlv_attr_equal a (data_of k o))) [
        | inl s ↦
            rw (q, node_set, s)
              (scheduled_number k u (dirtied (put_node k n o))
                (ap (λ (m : Node). m.update_number) (put_node_own k n o) ∙ renumbering))
        | inr s ↦
            rw (q, node_set, s)
              (scheduled_number k u (dirtied (replace_data k n a valid o))
                (replace_data-update_number k n a valid o ∙ renumbering))
      ]
    ]

-- Setting a node's data leaves the other nodes.
put_node_other :
    (k j : ℕ) (n : Node) (o : Net) → j ≢ k → (put_node k n o).graph.node j ≡ o.graph.node j
unfolding put_node
put_node_other k j n o h = rw (ne→== j k h) refl

replace_data_other :
    (k j : ℕ) (n : Node) (a : Option Bytes) (valid : Bool) (o : Net)
    → j ≢ k
    → (replace_data k n a valid o).graph.node j ≡ o.graph.node j
unfolding replace_data tell put_node
replace_data_other k j n a valid o h = rw (ne→== j k h) (ground arith)

pub node_set_other :
    (validates : ℕ → Bytes → Bool) (k j update_number t : ℕ) (a : Option Bytes) (o : Net)
    → j ≢ k
    → (node_set validates k update_number t a o).graph.node j ≡ o.graph.node j
unfolding node_set
node_set_other validates k j u t a o h =
    let n = renumbered u t (o.graph.node k) in
    let valid : Bool = elim a [ none ↦ true | some b ↦ validates k b ] in
    let scheduled = λ (o' : Net). ap (λ g. g.node j) (schedule-graph (dirtied o')) in
    elim (Bool-cases (spurious k u a o)) [
      | inl q ↦ rw (q, node_set) refl
      | inr q ↦ elim (Bool-cases (tlv_attr_equal a (data_of k o))) [
        | inl s ↦ rw (q, node_set, s) (scheduled (put_node k n o) ∙ put_node_other k j n o h)
        | inr s ↦
            rw (q, node_set, s)
              (scheduled (replace_data k n a valid o) ∙ replace_data_other k j n a valid o h)
      ]
    ]
