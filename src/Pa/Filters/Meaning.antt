-- ===== src/Pa/Filters/Meaning.antt =====
-- What a filter accepts (src/pa_filters.c), as a proposition.
use hnetd.Common.{
  ℕ, ◌≡◌, refl, sym, ◌∙◌, ◌≢◌, ◌↔◌, ◌⊎◌, inl, inr, Bool, true, false, not, Option, none, some,
  ==_iff, Bool-cases,
}
use hnetd.Pa.State.{Ldp}
use hnetd.Pa.Filters.{
  Filter, filter_ldp, filters_or, filters_and, Filters, no_filters, filters_add, is_null_or,
  accept_ldp, accept, accept_or, accept_and,
}

-- A pointer in a filter constrains the pair's only where it is not null.
abbrev pub Matches : Option ℕ → ℕ → Type 0
Matches none j = Unit
Matches (some i) j = i ≡ j

abbrev pub Signed : Bool → Type 0 → Type 0
Signed true P = ¬ P
Signed false P = P

mutual
  -- The pairs that a filter stands for.
  pub Accepts : Filter → Ldp → Type 0
  Accepts (filter_ldp link dp) l = Matches link l.link × Matches dp l.dp
  Accepts (filters_or fs negate) l = Signed negate (Some fs l)
  Accepts (filters_and fs negate) l = Signed negate (Every fs l)

  pub Some : Filters → Ldp → Type 0
  Some no_filters l = ⊥
  Some (filters_add f fs) l = Accepts f l ⊎ Some fs l

  pub Every : Filters → Ldp → Type 0
  Every no_filters l = Unit
  Every (filters_add f fs) l = Accepts f l × Every fs l

is_null_or_iff : (o : Option ℕ) (j : ℕ) → (is_null_or o j ≡ true) ↔ Matches o j
unfolding is_null_or
is_null_or_iff none j = (λ _. tt, λ _. refl)
is_null_or_iff (some i) j = ==_iff i j

ne_not : (n : Bool) → n ≢ not n
ne_not true e = cc e
ne_not false e = cc e

signed_iff : (b negate : Bool) (P : Type 0) → ((b ≡ not negate) ↔ P) → (b ≡ true) ↔ Signed negate P
signed_iff b false P h = h
signed_iff true true P h = (λ _ p. absurd (cc (h.1 p)), λ _. refl)
signed_iff false true P h = (λ e. absurd (cc e), λ n. absurd (n (h.0 refl)))

accept_ldp_iff :
    (link dp : Option ℕ) (l : Ldp)
    → (accept_ldp link dp l ≡ true) ↔ (Matches link l.link × Matches dp l.dp)
unfolding accept_ldp
accept_ldp_iff link dp l =
    let p = is_null_or_iff link l.link in
    let q = is_null_or_iff dp l.dp in
    elim (Bool-cases (is_null_or link l.link)) [
      | inr e ↦ rw e (λ h. absurd (cc h), λ m. absurd (cc (sym e ∙ p.1 m.0)))
      | inl e ↦ elim (Bool-cases (is_null_or dp l.dp)) [
        | inr d ↦ rw (e, d) (λ h. absurd (cc h), λ m. absurd (cc (sym d ∙ q.1 m.1)))
        | inl d ↦ rw (e, d) (λ _. (p.0 e, q.0 d), λ _. refl)
      ]
    ]

mutual
  unfolding accept Accepts

  filter_iff : (f : Filter) (l : Ldp) → (accept f l ≡ true) ↔ Accepts f l
  filter_iff (filter_ldp link dp) l = accept_ldp_iff link dp l
  filter_iff (filters_or fs negate) l = signed_iff _ negate _ (or_iff fs negate l)
  filter_iff (filters_and fs negate) l = signed_iff _ negate _ (and_iff fs negate l)

  or_iff : (fs : Filters) (n : Bool) (l : Ldp) → (accept_or fs n l ≡ not n) ↔ Some fs l
  or_iff no_filters true l = (λ e. absurd (cc e), λ s. absurd s)
  or_iff no_filters false l = (λ e. absurd (cc e), λ s. absurd s)
  or_iff (filters_add f fs) n l =
      let h = filter_iff f l in
      let ih = or_iff fs n l in
      elim (Bool-cases (accept f l)) [
        | inl t ↦ rw t (λ _. inl (h.0 t), λ _. refl)
        | inr e ↦ rw e (
          λ s. inr (ih.0 s),
          λ s. elim s [ inl a ↦ absurd (cc (sym e ∙ h.1 a)) | inr r ↦ ih.1 r ],
        )
      ]

  and_iff : (fs : Filters) (n : Bool) (l : Ldp) → (accept_and fs n l ≡ not n) ↔ Every fs l
  and_iff no_filters n l = (λ _. tt, λ _. refl)
  and_iff (filters_add f fs) n l =
      let h = filter_iff f l in
      let ih = and_iff fs n l in
      elim (Bool-cases (accept f l)) [
        | inl t ↦ rw t (λ s. (h.0 t, ih.0 s), λ s. ih.1 s.1)
        | inr e ↦ rw e (λ s. absurd (ne_not n s), λ s. absurd (cc (sym e ∙ h.1 s.0)))
      ]

-- A filter accepts exactly the pairs that it stands for: a pair filter those of its link and its
-- delegated prefix where it names one, a disjunction those that one of its members accepts, a
-- conjunction those that all of them accept, and a negated filter the others.
pub accept_iff : (f : Filter) (l : Ldp) → (accept f l ≡ true) ↔ Accepts f l
accept_iff f l = filter_iff f l
