-- ===== src/Pa/Store/Moves.antt =====
-- A prefix enters the store, or moves to the front of its lists (src/pa_store.c).
use mathlib.Core.Path.{subst}
use hnetd.Common.{
  ℕ, ◌+◌, ◌^◌, ◌<◌, ◌≡◌, refl, sym, ap, ◌∙◌, ◌≢◌, inl, inr, true, false, List, ◌∷◌, arith,
  ℕ_discrete, ◌==◌, if◌then◌else◌, ==_refl, ne→==, ==_iff, List-cases, length,
}
use hnetd.Pa.Prefix.{Prefix}
use hnetd.Pa.Store.Lists.{
  front, member, owned, owned_ext, owned-front_own, owned-front_other, front-Distinct, length-front,
  member-front,
}
use hnetd.Pa.Store.{StoreLink, Store, count_up, at_link, touch, enter}
use hnetd.Pa.Store.Rep.{Rep, in_link, length-owned, member_rest, store_updated-Rep}

pub enter-Rep :
    (s : Store) (owner : ℕ → ℕ) (l p : ℕ) (prefix : Prefix)
    → Rep s owner
    → member l s.links ≡ true
    → member p s.prefixes ≡ false
    → length s.prefixes + 1 < 2 ^ 32
    → Rep (enter l p prefix s) (λ j. if j == p then l else owner j)
unfolding enter at_link count_up
enter-Rep s owner l p prefix v here fresh room =
    let ext = λ (j : ℕ). owned_ext owner l j p s.prefixes fresh in
    record {
      distinct = (fresh, v.distinct);
      links_distinct = v.links_distinct;
      counted = omega (arith, v.counted);
      small = omega arith;
      lists = λ j h. elim (ℕ_discrete j l) [
        | yes e ↦
            rw ((==_iff j l).1 e, ==_refl p, (==_iff l j).1 (sym e))
              (ap (p ∷◌) (
                v.lists l here
                ∙ sym (ext l)
                ∙ ap (λ m. owned (λ i. if i == p then l else owner i) m s.prefixes) (sym e)))
        | no e ↦ rw (ne→== j l e, ==_refl p, ne→== l j (λ q. e (sym q))) (v.lists j h ∙ sym (ext j))
      ];
      counts = λ j h. elim (ℕ_discrete j l) [
        | yes e ↦
            rw (e, ==_refl l)
              (omega (
                arith,
                v.counts l here,
                ap length (v.lists l here),
                length-owned owner l s.prefixes,
              ))
        | no e ↦ rw (ne→== j l e) (v.counts j h)
      ];
      live = λ q h. elim (ℕ_discrete q p) [
        | yes e ↦ rw (e, ==_refl p) here
        | no e ↦ rw (ne→== q p e) (v.live q (member_rest q p s.prefixes e h))
      ];
    }

-- A prefix moves to the front of both lists, if the links' lists are as `f` says.
front-Rep :
    (s : Store) (owner : ℕ → ℕ) (p : ℕ) (f : ℕ → StoreLink)
    → Rep s owner
    → member p s.prefixes ≡ true
    → (f (owner p)).prefixes ≡ front p (s.link_at (owner p)).prefixes
    → ((j : ℕ) → j ≢ owner p → (f j).prefixes ≡ (s.link_at j).prefixes)
    → ((j : ℕ) → (f j).n_prefixes ≡ (s.link_at j).n_prefixes)
    → Rep (record s { prefixes = front p s.prefixes; link_at = f }) owner
front-Rep s owner p f v here own others same = record {
  distinct = front-Distinct p s.prefixes v.distinct;
  links_distinct = v.links_distinct;
  counted = v.counted ∙ sym (length-front p s.prefixes here);
  small = omega (arith, v.small, length-front p s.prefixes here);
  lists = λ j h. elim (ℕ_discrete j (owner p)) [
    | yes e ↦
        subst (λ m. (f m).prefixes ≡ owned owner m (front p s.prefixes)) (sym e)
          (own
            ∙ ap (front p) (v.lists (owner p) (v.live p here))
            ∙ sym (owned-front_own owner (owner p) p s.prefixes refl))
    | no e ↦
        others j e ∙ v.lists j h ∙ sym (owned-front_other owner j p s.prefixes (λ q. e (sym q)))
  ];
  counts = λ j h. elim (ℕ_discrete j (owner p)) [
    | yes e ↦
        subst (λ m. (f m).n_prefixes ≡ length (f m).prefixes) (sym e)
          (same (owner p)
            ∙ v.counts (owner p) (v.live p here)
            ∙ sym (length-front p (s.link_at (owner p)).prefixes (in_link s owner v p here))
            ∙ sym (ap length own))
    | no e ↦ same j ∙ v.counts j h ∙ sym (ap length (others j e))
  ];
  live = λ q h. v.live q (member-front p q s.prefixes v.distinct here h);
}

front_first : (p q : ℕ) (qs : List ℕ) → q ≡ p → front p (q ∷ qs) ≡ q ∷ qs
front_first p q qs e = rw (e, ==_refl p) refl

pub touch-Rep :
    (s : Store) (owner : ℕ → ℕ) (l p : ℕ)
    → Rep s owner
    → member p s.prefixes ≡ true
    → owner p ≡ l
    → Rep (touch l p s) owner
unfolding touch at_link
touch-Rep s owner l p v here own =
    let inside : member p (s.link_at l).prefixes ≡ true =
      subst (λ m. member p (s.link_at m).prefixes ≡ true) own (in_link s owner v p here) in
    elim (List-cases (s.link_at l).prefixes) [
      | inl e ↦ absurd (cc (sym (ap (member p) e) ∙ inside))
      | inr (q, qs, e) ↦ elim (ℕ_discrete q p) [
        | yes same ↦
            rw (e, touch, same, ==_refl p)
              (front-Rep s owner p s.link_at v here
                (subst (λ m. (s.link_at m).prefixes ≡ front p (s.link_at m).prefixes) (sym own)
                  (e ∙ sym (front_first p q qs same) ∙ ap (front p) (sym e)))
                (λ _ _. refl) (λ _. refl))
        | no differ ↦
            rw (e, touch, ne→== q p differ)
              (store_updated-Rep _ owner (
                front-Rep s owner p _ v here
                  (rw ((==_iff (owner p) l).1 own)
                    (ap (λ m. front p (s.link_at m).prefixes) (sym own)))
                  (λ j n. rw (ne→== j l (λ q. n (q ∙ sym own))) refl)
                  (λ j. elim (ℕ_discrete j l) [
                    | yes i ↦ rw ((==_iff j l).1 i) (ap (λ m. (s.link_at m).n_prefixes) (sym i))
                    | no i ↦ rw (ne→== j l i) refl
                  ])))
      ]
    ]
