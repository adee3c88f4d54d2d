-- ===== src/ChangePlan/Apply/Ordered.antt =====
-- Every command of a plan whose parents are ranked is applied once, parents first.
use mathlib.Core.Option
use mathlib.Core.List.{Perm}
use mathlib.Core.List.Perm
use mathlib.Core.List.Memᴰ
use mathlib.Core.Path.{subst}
use projectree.Base.{
  ℕ, zero, suc, ◌≡◌, ◌<◌, refl, ap, sym, ◌⊎◌, inl, inr, Bool, true, false, ◌&&◌, Option, none, some,
  List, [], ◌∷◌, Memᴰ, String, any, length, if◌then◌else◌, str_eq_iff, arith, Bool-cases, All,
  All-mem, any_of_mem,
}
use projectree.Base.Text.{truthy, text_of}
use projectree.Validation.Rules.{member}
use projectree.Validation.Judgments.{key_leb}
use projectree.ChangePlan.{Command, ParentRef}
use projectree.ChangePlan.Apply.{
  creates, ready, parent_ready, pick, better, emit_ready, ordered_for_apply,
}

-- What is picked is ready, and the rest is the list without it.
record Picked (p : Command → Bool) (xs : List Command) (d : Command) (ds : List Command)
    : Type 0 where
  is_ready : p d ≡ true
  reorders : Perm (d ∷ ds) xs
  shorter : suc (length ds) ≡ length xs
  keeps : (c : Command) → Memᴰ c xs → (c ≡ d) ⊎ Memᴰ c ds
  within : (c : Command) → Memᴰ c (d ∷ ds) → Memᴰ c xs

-- What a choice comes to: the picked command and the rest, or nothing to pick.
abbrev PickSpec : (Command → Bool) → List Command → Option (Command × List Command) → Type 0
PickSpec p xs none = All (λ c. p c ≡ false) xs
PickSpec p xs (some (d, ds)) = Picked p xs d ds

module _ (p : Command → Bool) where
  at_head : (c : Command) (cs : List Command) → p c ≡ true → Picked p (c ∷ cs) c cs
  at_head c cs h = record {
    is_ready = h;
    reorders = Perm.refl (c ∷ cs);
    shorter = refl;
    keeps = λ k m. Memᴰ.cases_cons m;
    within = λ k m. m;
  }

  at_tail : (c d : Command) (cs ds : List Command) → Picked p cs d ds → Picked p (c ∷ cs) d (c ∷ ds)
  at_tail c d cs ds k = record {
    is_ready = k.is_ready;
    reorders = Perm.trans (Perm.swap c d ds) (Perm.cons c k.reorders);
    shorter = ap suc k.shorter;
    keeps = λ a m. elim (Memᴰ.cases_cons m) [
      | inl e ↦ inr (Memᴰ.head e)
      | inr n ↦ elim (k.keeps a n) [ inl e ↦ inl e | inr q ↦ inr (Memᴰ.tail q) ]
    ];
    within = λ a m. elim (Memᴰ.cases_cons m) [
      | inl e ↦ Memᴰ.tail (k.within a (Memᴰ.head e))
      | inr n ↦ elim (Memᴰ.cases_cons n) [
        | inl e ↦ Memᴰ.head e
        | inr q ↦ Memᴰ.tail (k.within a (Memᴰ.tail q))
      ]
    ];
  }

  choice :
      (c d : Command) (cs ds : List Command) (b : Bool)
      → p c ≡ true
      → Picked p cs d ds
      → PickSpec p (c ∷ cs) (if b then some (c, cs) else some (d, c ∷ ds))
  choice c d cs ds true h k = at_head c cs h
  choice c d cs ds false h k = at_tail c d cs ds k

  pick_step :
      (c : Command) (cs : List Command) (b : Bool) (r : Option (Command × List Command))
      → p c ≡ b
      → PickSpec p cs r
      → PickSpec p (c ∷ cs) (if b then better c cs r else Option.map (λ r. (r.0, c ∷ r.1)) r)
  pick_step c cs true none h k = at_head c cs h
  pick_step c cs true (some (d, ds)) h k = choice c d cs ds (key_leb c.sort_key d.sort_key) h k
  pick_step c cs false none h k = (h, k)
  pick_step c cs false (some (d, ds)) h k = at_tail c d cs ds k

  pick_spec : (xs : List Command) → PickSpec p xs (pick p xs)
  unfolding pick
  pick_spec [] = tt
  pick_spec (c ∷ cs) = pick_step c cs (p c) (pick p cs) refl (pick_spec cs)

  -- Something is picked where something is ready.
  picked :
      (c : Command) (xs : List Command)
      → Memᴰ c xs
      → p c ≡ true
      → (d : Command) × (ds : List Command) × (pick p xs ≡ some (d, ds)) × Picked p xs d ds
  picked c xs m h = go (pick p xs) refl (pick_spec xs)
    where
      go :
          (o : Option (Command × List Command))
          → pick p xs ≡ o
          → PickSpec p xs o
          → (d : Command) × (ds : List Command) × (pick p xs ≡ some (d, ds)) × Picked p xs d ds
      go none e k = cc (h, All-mem (λ c. p c ≡ false) xs k m)
      go (some (d, ds)) e k = (d, ds, e, k)

mem_of_any :
    (p : Command → Bool) (xs : List Command)
    → any p xs ≡ true
    → (a : Command) × Memᴰ a xs × (p a ≡ true)
mem_of_any p [] h = cc
mem_of_any p (x ∷ xs) h = elim (Bool-cases (p x)) [
  | inl e ↦ (x, Memᴰ.head refl, e)
  | inr e ↦ let (a, m, q) = mem_of_any p xs (ground arith) in (a, Memᴰ.tail m, q)
]

abbrev pub new_parent : Option ParentRef → Option String
new_parent none = none
new_parent (some parent) = parent.new_parent_item_id

-- `p` creates the item that `c` names as its new parent.
abbrev pub is_parent : Command → Command → Bool
is_parent p c = truthy (new_parent c.parent) && creates (text_of (new_parent c.parent)) p

-- Each command comes after the parents that the plan creates for it.
abbrev pub ParentsFirst : List Command → List String → List Command → Type 0
ParentsFirst commands before [] = Unit
ParentsFirst commands before (c ∷ ordered) =
    ((p : Command) → Memᴰ p commands → is_parent p c ≡ true → member p.item_id before ≡ true)
    × ParentsFirst commands (c.item_id ∷ before) ordered

module _ (commands : List Command) where
  unready :
      (emitted : List String) (c : Command)
      → ready commands emitted c ≡ false
      → (p : Command) × Memᴰ p commands
        × (is_parent p c ≡ true)
        × (member p.item_id emitted ≡ false)
  unready emitted c h = elim (Bool-cases (truthy (new_parent c.parent))) [
    | inl t ↦
        let (p, m, q) =
          mem_of_any (creates (text_of (new_parent c.parent))) commands (ground (arith, h)) in
        (
          p,
          m,
          ground (arith, t, q),
          ground (arith, h, q, str_eq_iff p.item_id (text_of (new_parent c.parent))),
        )
    | inr f ↦ absurd (ground (arith, h, f))
  ]

  ready_parents :
      (emitted : List String) (c : Command)
      → ready commands emitted c ≡ true
      → (p : Command) → Memᴰ p commands
      → is_parent p c ≡ true
      → member p.item_id emitted ≡ true
  ready_parents emitted c h p m q =
      let named : p.item_id ≡ text_of (new_parent c.parent) =
        (str_eq_iff p.item_id (text_of (new_parent c.parent))).0 (ground (arith, q)) in
      let created =
        any_of_mem (creates (text_of (new_parent c.parent))) commands (ground (arith, q)) m in
      subst (λ id. member id emitted ≡ true) (sym named)
        (emitted_parent c.parent h (ground (arith, q)) created)
    where
      emitted_parent :
          (parent : Option ParentRef)
          → parent_ready commands emitted parent ≡ true
          → truthy (new_parent parent) ≡ true
          → any (creates (text_of (new_parent parent))) commands ≡ true
          → member (text_of (new_parent parent)) emitted ≡ true
      emitted_parent none h t a = cc
      emitted_parent (some parent) h t a = ground (arith, h, t, a)

  module _ (rank : Command → ℕ)
      (lower : (c p : Command)
        → Memᴰ c commands
        → Memᴰ p commands
        → is_parent p c ≡ true
        → rank p < rank c) where
    -- Every command is waiting or has been emitted.
    record Going (emitted : List String) (waiting : List Command) : Type 0 where
      within : (c : Command) → Memᴰ c waiting → Memᴰ c commands
      accounted :
          (c : Command) → Memᴰ c commands → Memᴰ c waiting ⊎ (member c.item_id emitted ≡ true)

    -- Down the ranks some waiting command is ready.
    some_ready :
        (n : ℕ) (emitted : List String) (waiting : List Command)
        → Going emitted waiting
        → (c : Command) → Memᴰ c waiting
        → rank c < n
        → (d : Command) × Memᴰ d waiting × (ready commands emitted d ≡ true)
    some_ready zero emitted waiting g c m h = elim h [ ]
    some_ready (suc n) emitted waiting g c m h = elim (Bool-cases (ready commands emitted c)) [
      | inl e ↦ (c, m, e)
      | inr e ↦
          let (p, k, q, absent) = unready emitted c e in
          elim (g.accounted p k) [
            | inl w ↦ some_ready n emitted waiting g p w (below (lower c p (g.within c m) k q) h)
            | inr there ↦ cc (there, absent)
          ]
    ]
      where
        below : {a b n : ℕ} → a < b → b < suc n → a < n
        below h k = omega arith

    Going-on :
        (emitted : List String) (waiting : List Command) (d : Command) (ds : List Command)
        → Going emitted waiting
        → Picked (ready commands emitted) waiting d ds
        → Going (d.item_id ∷ emitted) ds
    Going-on emitted waiting d ds g k = record {
      within = λ c m. g.within c (k.within c (Memᴰ.tail m));
      accounted = λ c m. elim (g.accounted c m) [
        | inr there ↦ inr (ground (arith, there))
        | inl w ↦ elim (k.keeps c w) [
          | inl e ↦ inr (ground (arith, str_eq_iff c.item_id d.item_id, ap (λ a. a.item_id) e))
          | inr still ↦ inl still
        ]
      ];
    }

    emit_step :
        (fuel : ℕ) (emitted : List String) (c : Command) (cs : List Command) (d : Command)
        (ds out : List Command)
        → pick (ready commands emitted) (c ∷ cs) ≡ some (d, ds)
        → emit_ready fuel commands (d.item_id ∷ emitted) ds ≡ some out
        → emit_ready (suc fuel) commands emitted (c ∷ cs) ≡ some (d ∷ out)
    unfolding emit_ready
    emit_step fuel emitted c cs d ds out found ends = rw (found, emit_ready) (rw ends refl)

    emit_ready_total :
        (fuel : ℕ) (emitted : List String) (waiting : List Command)
        → length waiting ≡ fuel
        → Going emitted waiting
        → (out : List Command) × (emit_ready fuel commands emitted waiting ≡ some out)
          × Perm out waiting
          × ParentsFirst commands emitted out
          × ((k : Command) → Memᴰ k out → Memᴰ k waiting)
    unfolding emit_ready
    emit_ready_total fuel emitted [] e g = ([], refl, Perm.refl [], tt, λ k m. m)
    emit_ready_total zero emitted (c ∷ cs) e g = absurd (ground (arith, e))
    emit_ready_total (suc fuel) emitted (c ∷ cs) e g =
        let (a, m, q) =
          some_ready (suc (rank c)) emitted (c ∷ cs) g c (Memᴰ.head refl) (omega arith) in
        let (d, ds, found, k) = picked (ready commands emitted) a (c ∷ cs) m q in
        let (out, ends, perm, first, within) =
          emit_ready_total fuel (d.item_id ∷ emitted) ds (ground (arith, k.shorter, e))
            (Going-on emitted (c ∷ cs) d ds g k) in
        (
          d ∷ out,
          emit_step fuel emitted c cs d ds out found ends,
          Perm.trans (Perm.cons d perm) k.reorders,
          (ready_parents emitted d k.is_ready, first),
          (λ a m. elim (Memᴰ.cases_cons m) [
            | inl same ↦ k.within a (Memᴰ.head same)
            | inr n ↦ k.within a (Memᴰ.tail (within a n))
          ]),
        )

    -- The order, and that it has only commands of the plan.
    pub ordered_for_apply_all :
        (out : List Command) × (ordered_for_apply commands ≡ some out)
        × Perm out commands
        × ParentsFirst commands [] out
        × ((k : Command) → Memᴰ k out → Memᴰ k commands)
    unfolding ordered_for_apply
    ordered_for_apply_all =
        emit_ready_total (length commands) [] commands refl
          (record { within = λ c m. m; accounted = λ c m. inl m })

    -- A plan whose parents have lower ranks has no cycle: all of its commands are put in order, each
    -- once, and each after a command of each item that it names as a parent which the plan creates.
    pub ordered_for_apply_total :
        (out : List Command) × (ordered_for_apply commands ≡ some out)
        × Perm out commands
        × ParentsFirst commands [] out
    ordered_for_apply_total = let all = ordered_for_apply_all in (all.0, all.1, all.2, all.3)
