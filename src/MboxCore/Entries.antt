-- ===== src/MboxCore/Entries.antt =====
-- The entries of the dictionary beside the living named mboxes (dev/so_5/impl/mbox_core.cpp).
use sobjectizer.Base.{
  ◌≤◌, unsigned_mod, add_unsigned, sub_unsigned, length, take_at, ℕ, zero, suc, ◌+◌, ◌<◌, ◌≡◌, refl,
  sym, ap, subst, ◌∙◌, inl, inr, false, Option, none, some, List, [], ◌∷◌, ◌==◌, if◌then◌else◌,
  arith, Bool-cases, Option-cases,
}
use sobjectizer.MboxCore.{NamedMboxInfo, Core, assign, refer, emplace, destroy_mbox}

-- How many of the living mboxes have the name.
unfoldable pub users : ℕ → List (ℕ × ℕ) → ℕ
users name [] = 0
users name (h ∷ hs) = (if h.0 == name then 1 else 0) + users name hs

users-length : (n : ℕ) (l : List (ℕ × ℕ)) → users n l ≤ length l
unfolding users
users-length n [] = omega arith
users-length n (x ∷ xs) = let rest = users-length n xs in ground arith

-- A name has no more mboxes than there are.
pub users-few : (n : ℕ) (l : List (ℕ × ℕ)) → length l < unsigned_mod → users n l < unsigned_mod
users-few n l h = let fits = users-length n l in omega arith

-- All that have the name stand for the mbox.
abbrev pub AllAre : ℕ → ℕ → List (ℕ × ℕ) → Type 0
AllAre name mbox [] = Unit
AllAre name mbox (h ∷ hs) = (h.0 ≡ name → h.1 ≡ mbox) × AllAre name mbox hs

abbrev pub ByEntry : ℕ → List (ℕ × ℕ) → Option NamedMboxInfo → Type 0
ByEntry name alive none = users name alive ≡ 0
ByEntry name alive (some info) =
    (info.external_ref_count ≡ users name alive)
    × (0 < info.external_ref_count)
    × (info.external_ref_count < unsigned_mod)
    × AllAre name info.mbox alive

abbrev pub IsKept : Core → List (ℕ × ℕ) → Type 0
IsKept c alive = (n : ℕ) → ByEntry n alive (c.named_mboxes_dictionary n)

-- The entries are in order, if no name has so many mboxes that its counter wraps.
abbrev pub KeptIfFew : Core → List (ℕ × ℕ) → Type 0
KeptIfFew c alive = ((n : ℕ) → users n alive < unsigned_mod) → IsKept c alive

-- A mbox of another name changes nothing.
other_name :
    (n name mbox : ℕ) (alive : List (ℕ × ℕ)) (e : Option NamedMboxInfo)
    → (n == name) ≡ false
    → ByEntry n alive e
    → ByEntry n ((name, mbox) ∷ alive) e
unfolding users
other_name n name mbox alive none h k = ground arith
other_name n name mbox alive (some info) h (a, b, fit, c) =
    (ground arith, b, fit, ((λ q. absurd (ground arith)), c))

AllAre-none : (n mbox : ℕ) (alive : List (ℕ × ℕ)) → users n alive ≡ 0 → AllAre n mbox alive
unfolding users
AllAre-none n mbox [] h = tt
AllAre-none n mbox (x ∷ xs) h = ((λ q. absurd (ground arith)), AllAre-none n mbox xs (ground arith))

pub referred-IsKept :
    (name : ℕ) (info : NamedMboxInfo) (c : Core) (alive : List (ℕ × ℕ))
    → IsKept c alive
    → c.named_mboxes_dictionary name ≡ some info
    → KeptIfFew (refer name info c) ((name, info.mbox) ∷ alive)
unfolding users
referred-IsKept name info c alive k e few n = elim (Bool-cases (n == name)) [
  | inl h ↦
      let same : n ≡ name = ground arith in
      let entry : c.named_mboxes_dictionary n ≡ some info = ap c.named_mboxes_dictionary same ∙ e in
      let (a, b, fit, d) = subst (λ (x : Option NamedMboxInfo). ByEntry n alive x) entry (k n) in
      let room : users n alive + 1 < unsigned_mod = let all = few n in ground arith in
      let one_more : add_unsigned info.external_ref_count 1 ≡ suc (users n alive) = omega arith in
      rw h (ground arith, omega arith, omega arith, ((λ q. refl), d))
  | inr h ↦ rw h (other_name n name info.mbox alive (c.named_mboxes_dictionary n) h (k n))
]

pub emplaced-IsKept :
    (name mbox : ℕ) (c : Core) (alive : List (ℕ × ℕ))
    → IsKept c alive
    → c.named_mboxes_dictionary name ≡ none
    → KeptIfFew (emplace name mbox c) ((name, mbox) ∷ alive)
unfolding users
emplaced-IsKept name mbox c alive k e few n = elim (Bool-cases (n == name)) [
  | inl h ↦
      let same : n ≡ name = ground arith in
      let entry : c.named_mboxes_dictionary n ≡ none = ap c.named_mboxes_dictionary same ∙ e in
      let none_there = subst (λ (x : Option NamedMboxInfo). ByEntry n alive x) entry (k n) in
      rw h
        (ground arith, omega arith, omega arith, ((λ q. refl), AllAre-none n mbox alive none_there))
  | inr h ↦ rw h (other_name n name mbox alive (c.named_mboxes_dictionary n) h (k n))
]

-- What is taken out of a list.
take_at-users :
    (i n : ℕ) (l : List (ℕ × ℕ)) (p : (ℕ × ℕ) × List (ℕ × ℕ))
    → take_at i l ≡ some p
    → users n l ≡ (if p.0.0 == n then 1 else 0) + users n p.1
unfolding take_at users
take_at-users zero n [] p e = absurd (cc)
take_at-users (suc i) n [] p e = absurd (cc)
take_at-users zero n (x ∷ xs) p e =
    let same : (x, xs) ≡ p = cc in
    subst
      (λ (q : (ℕ × ℕ) × List (ℕ × ℕ)).
        users n (x ∷ xs) ≡ (if q.0.0 == n then 1 else 0) + users n q.1)
      same refl
take_at-users (suc i) n (x ∷ xs) p e = elim (Option-cases (take_at i xs)) [
  | inl k ↦ let gone : take_at (suc i) (x ∷ xs) ≡ none = simp (k, take_at) in absurd (cc)
  | inr (q, k) ↦
      let rest = take_at-users i n xs q k in
      let there : take_at (suc i) (x ∷ xs) ≡ some (q.0, x ∷ q.1) = simp (k, take_at) in
      let same : (q.0, x ∷ q.1) ≡ p = cc in
      subst
        (λ (r : (ℕ × ℕ) × List (ℕ × ℕ)).
          users n (x ∷ xs) ≡ (if r.0.0 == n then 1 else 0) + users n r.1)
        same (omega arith)
]

take_at-AllAre :
    (i n mbox : ℕ) (l : List (ℕ × ℕ)) (p : (ℕ × ℕ) × List (ℕ × ℕ))
    → take_at i l ≡ some p
    → AllAre n mbox l
    → AllAre n mbox p.1
unfolding take_at
take_at-AllAre zero n mbox [] p e a = absurd (cc)
take_at-AllAre (suc i) n mbox [] p e a = absurd (cc)
take_at-AllAre zero n mbox (x ∷ xs) p e (h, a) =
    let same : (x, xs) ≡ p = cc in subst (λ (q : (ℕ × ℕ) × List (ℕ × ℕ)). AllAre n mbox q.1) same a
take_at-AllAre (suc i) n mbox (x ∷ xs) p e (h, a) = elim (Option-cases (take_at i xs)) [
  | inl k ↦ let gone : take_at (suc i) (x ∷ xs) ≡ none = simp (k, take_at) in absurd (cc)
  | inr (q, k) ↦
      let rest = take_at-AllAre i n mbox xs q k a in
      let there : take_at (suc i) (x ∷ xs) ≡ some (q.0, x ∷ q.1) = simp (k, take_at) in
      let same : (q.0, x ∷ q.1) ≡ p = cc in
      subst (λ (r : (ℕ × ℕ) × List (ℕ × ℕ)). AllAre n mbox r.1) same (h, rest)
]

-- The entry of a name after one of its mboxes is gone.
left-ByEntry :
    (n : ℕ) (info : NamedMboxInfo) (l : List (ℕ × ℕ))
    → info.external_ref_count ≡ suc (users n l)
    → info.external_ref_count < unsigned_mod
    → AllAre n info.mbox l
    → ByEntry n l (
        if sub_unsigned info.external_ref_count 1 == 0
        then none
        else some (record info { external_ref_count = sub_unsigned info.external_ref_count 1 }))
left-ByEntry n info l e fit a =
    let one_less : sub_unsigned info.external_ref_count 1 ≡ users n l = omega arith in
    elim (Bool-cases (sub_unsigned info.external_ref_count 1 == 0)) [
      | inl h ↦ rw h (ground arith)
      | inr h ↦ rw h (one_less, ground arith, omega arith, a)
    ]

-- The entry of a name after a mbox of another name is gone.
other_gone :
    (i n : ℕ) (l : List (ℕ × ℕ)) (p : (ℕ × ℕ) × List (ℕ × ℕ)) (e : Option NamedMboxInfo)
    → take_at i l ≡ some p
    → (n == p.0.0) ≡ false
    → ByEntry n l e
    → ByEntry n p.1 e
other_gone i n l p none t h k = let split = take_at-users i n l p t in ground arith
other_gone i n l p (some info) t h (a, b, fit, d) =
    let split = take_at-users i n l p t in
    (ground arith, b, fit, take_at-AllAre i n info.mbox l p t d)

pub destroyed-IsKept :
    (i : ℕ) (c : Core) (alive : List (ℕ × ℕ)) (p : (ℕ × ℕ) × List (ℕ × ℕ))
    → IsKept c alive
    → take_at i alive ≡ some p
    → KeptIfFew (destroy_mbox p.0.0 c) p.1
unfolding destroy_mbox
destroyed-IsKept i c alive p k e few n =
    let name = p.0.0 in
    let split = take_at-users i n alive p e in
    let split' = take_at-users i name alive p e in
    elim (Option-cases (c.named_mboxes_dictionary name)) [
      | inl gone ↦
          let none_there =
            subst (λ (x : Option NamedMboxInfo). ByEntry name alive x) gone (k name) in
          absurd (ground arith)
      | inr (info, there) ↦
          let after : destroy_mbox name c ≡ record c {
            named_mboxes_dictionary = assign c.named_mboxes_dictionary name (
                if sub_unsigned info.external_ref_count 1 == 0
                then none
                else some
                    (record info { external_ref_count = sub_unsigned info.external_ref_count 1 }));
          } =
            simp (there, destroy_mbox) in
          subst (λ (d : Core). ByEntry n p.1 (d.named_mboxes_dictionary n)) (sym after)
            (elim (Bool-cases (n == name)) [
              | inl h ↦
                  let same : n ≡ name = ground arith in
                  let entry : c.named_mboxes_dictionary n ≡ some info =
                    ap c.named_mboxes_dictionary same ∙ there in
                  let (a, b, fit, d) =
                    subst (λ (x : Option NamedMboxInfo). ByEntry n alive x) entry (k n) in
                  rw h (
                    left-ByEntry n info p.1 (ground arith) fit
                      (take_at-AllAre i n info.mbox alive p e d))
              | inr h ↦ rw h (other_gone i n alive p (c.named_mboxes_dictionary n) e h (k n))
            ])
    ]
