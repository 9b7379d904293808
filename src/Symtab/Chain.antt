-- ===== src/Symtab/Chain.antt =====
-- One scope: its chains, their invariant, and the effect of a new symbol on the lookups in it.
use mathlib.Core.Option.{some-injective}
use mathlib.Core.Path.{subst}
use scorivm.Base.Lists.{
  length, get_elem?, get_or, set, replicate, All, All-map, get_elem?-append_left,
  get_elem?-append_self, lt_of_get_elem?, length-set, get_or-set, get_or-replicate,
}
use scorivm.Base.Logic.{◌==◌, Bytes, bytes_eq, bytes_eq_iff, if◌then◌else◌, Bool-cases}
use scorivm.Base.{
  ℕ, zero, suc, ◌+◌, ◌%◌, ◌<◌, ◌≡◌, refl, sym, ap, ◌∙◌, inl, inr, false, Option, none, some, List,
  [], ◌∷◌, ◌++◌, arith,
}
use scorivm.Symtab.{Symbol, Scope, hash_token, find, bucket, find_in, link}

-- The symbol stands in the store, and its name belongs in bucket `b`.
abbrev pub AtHome : List Symbol → ℕ → ℕ → Type 0
AtHome syms b i = (s : Symbol) × (get_elem? syms i ≡ some s) × (hash_token s.name % 64 ≡ b)

-- No two symbols of a chain have one name.
abbrev pub Distinct : List Symbol → List ℕ → Type 0
Distinct syms [] = Unit
Distinct syms (i ∷ c) =
    ((s : Symbol) → get_elem? syms i ≡ some s → find syms s.name c ≡ none) × Distinct syms c

abbrev pub total : List (List ℕ) → ℕ
total [] = 0
total (c ∷ cs) = length c + total cs

pub record IsValidScope (syms : List Symbol) (sc : Scope) : Type 0 where
  pub capacity_eq : sc.capacity ≡ 64
  pub width : length sc.hash_table ≡ 64
  pub placed : (b : ℕ) → All (AtHome syms b) (get_or sc.hash_table b [])
  pub distinct : (b : ℕ) → Distinct syms (get_or sc.hash_table b [])
  pub counted : sc.count ≡ total sc.hash_table

pub find-cons :
    (syms : List Symbol) (q : Bytes) (i : ℕ) (c : List ℕ) (s : Symbol)
    → get_elem? syms i ≡ some s
    → find syms q (i ∷ c) ≡ (if bytes_eq s.name q then some i else find syms q c)
unfolding find
find-cons syms q i c s e = rw (e, find)

module _ (syms ext : List Symbol) where
  pub find-append :
      (q : Bytes) (b : ℕ) (c : List ℕ)
      → All (AtHome syms b) c
      → find (syms ++ ext) q c ≡ find syms q c
  unfolding find
  find-append q b [] h = refl
  find-append q b (i ∷ c) h =
      let (s, e, _) = h.0 in
      find-cons (syms ++ ext) q i c s
        (get_elem?-append_left syms ext i (lt_of_get_elem? syms i s e) ∙ e)
      ∙ ap (λ r. if bytes_eq s.name q then some i else r) (find-append q b c h.1)
      ∙ sym (find-cons syms q i c s e)

  AtHome-append : (b i : ℕ) → AtHome syms b i → AtHome (syms ++ ext) b i
  AtHome-append b i (s, e, h) =
      (s, get_elem?-append_left syms ext i (lt_of_get_elem? syms i s e) ∙ e, h)

  Distinct-append :
      (b : ℕ) (c : List ℕ) → All (AtHome syms b) c → Distinct syms c → Distinct (syms ++ ext) c
  Distinct-append b [] h d = tt
  Distinct-append b (i ∷ c) h d =
      let (s, e, _) = h.0 in
      (
        λ t et.
            find-append t.name b c h.1
            ∙ d.0 t (sym (get_elem?-append_left syms ext i (lt_of_get_elem? syms i s e)) ∙ et),
        Distinct-append b c h.1 d.1,
      )

  -- More symbols in the store leave a scope as it was.
  pub IsValidScope-append : (sc : Scope) → IsValidScope syms sc → IsValidScope (syms ++ ext) sc
  IsValidScope-append sc v = record {
    capacity_eq = v.capacity_eq;
    width = v.width;
    placed = λ b.
        All-map (AtHome syms b) (AtHome (syms ++ ext) b) (get_or sc.hash_table b [])
          (AtHome-append b) (v.placed b);
    distinct = λ b. Distinct-append b (get_or sc.hash_table b []) (v.placed b) (v.distinct b);
    counted = v.counted;
  }

  pub find_in-append :
      (sc : Scope) (q : Bytes)
      → IsValidScope syms sc
      → find_in (syms ++ ext) sc q ≡ find_in syms sc q
  unfolding find_in
  find_in-append sc q v = find-append q (bucket sc q) _ (v.placed (bucket sc q))

total-set :
    (t : List (List ℕ)) (b id : ℕ)
    → b < length t
    → total (set t b (id ∷ get_or t b [])) ≡ total t + 1
total-set [] b id h = absurd (omega arith)
total-set (c ∷ cs) zero id h = omega arith
total-set (c ∷ cs) (suc b) id h = omega (arith, total-set cs b id (omega arith))

module _ (syms : List Symbol) (s : Symbol) (sc : Scope) (v : IsValidScope syms sc) where
  -- After a symbol is linked, its name finds it and every other name finds what it found before.
  pub find_in-link :
      (q : Bytes)
      → find_in (syms ++ s ∷ []) (link (length syms) s.name sc) q
        ≡ (if bytes_eq s.name q then some (length syms) else find_in syms sc q)
  unfolding find_in link
  find_in-link q =
      let b = bucket sc s.name in
      let small : b < length sc.hash_table = rw (v.capacity_eq, v.width) (omega arith) in
      let id = length syms in
      let chain = get_or sc.hash_table (bucket sc q) [] in
      let old = find-append syms (s ∷ []) q (bucket sc q) chain (v.placed (bucket sc q)) in
      let written =
        get_or-set sc.hash_table b (bucket sc q) (id ∷ get_or sc.hash_table b []) [] small in
      elim (Bool-cases (b == bucket sc q)) [
        | inl same ↦
            let e : b ≡ bucket sc q = ground arith in
            ap (find (syms ++ s ∷ []) q) {y = id ∷ chain}
              (written ∙ rw same (ap (λ n. id ∷ get_or sc.hash_table n []) e))
            ∙ find-cons (syms ++ s ∷ []) q id chain s (get_elem?-append_self syms s)
            ∙ ap (λ r. if bytes_eq s.name q then some id else r) old
        | inr other ↦
            let differs : bytes_eq s.name q ≡ false = elim (Bool-cases (bytes_eq s.name q)) [
              | inl e ↦
                  let n : b ≡ bucket sc q = ap (bucket sc) ((bytes_eq_iff s.name q).0 e) in
                  absurd (ground arith)
              | inr e ↦ e
            ] in
            ap (find (syms ++ s ∷ []) q) (written ∙ rw other) ∙ old ∙ rw differs
      ]

  -- A symbol with a new name keeps the scope well formed.
  pub link-IsValidScope :
      find_in syms sc s.name ≡ none → IsValidScope (syms ++ s ∷ []) (link (length syms) s.name sc)
  unfolding find_in link
  link-IsValidScope absent =
      let b = bucket sc s.name in
      let id = length syms in
      let ext = IsValidScope-append syms (s ∷ []) sc v in
      let chain = get_or sc.hash_table b [] in
      let here : get_elem? (syms ++ s ∷ []) id ≡ some s = get_elem?-append_self syms s in
      let small : b < length sc.hash_table = rw (v.capacity_eq, v.width) (omega arith) in
      let written : (n : ℕ)
          → get_or (set sc.hash_table b (id ∷ chain)) n []
            ≡ (if b == n then id ∷ chain else get_or sc.hash_table n []) =
        λ n. get_or-set sc.hash_table b n (id ∷ chain) [] small in
      record {
        capacity_eq = v.capacity_eq;
        width = length-set sc.hash_table b (id ∷ chain) ∙ v.width;
        placed = λ n. rw (written n) (elim (Bool-cases (b == n)) [
          | inr other ↦ rw other (ext.placed n)
          | inl same ↦
              let e : b ≡ n = ground arith in
              rw same (
                (s, here, rw (← e, v.capacity_eq) refl),
                subst (λ k. All (AtHome (syms ++ s ∷ []) k) chain) e (ext.placed b),
              )
        ]);
        distinct = λ n. rw (written n) (elim (Bool-cases (b == n)) [
          | inr other ↦ rw other (ext.distinct n)
          | inl same ↦ rw same (
            λ t et.
                subst (λ (x : Symbol). find (syms ++ s ∷ []) x.name chain ≡ none)
                  (some-injective _ _ (sym here ∙ et))
                  (find-append syms (s ∷ []) s.name b chain (v.placed b) ∙ absent),
            ext.distinct b,
          )
        ]);
        counted = omega (arith, v.counted, total-set sc.hash_table b id small);
      }

-- A scope as it is created.
pub empty-IsValidScope :
    (syms : List Symbol) (parent : Option ℕ)
    → IsValidScope syms
        (record { hash_table = replicate 64 []; capacity = 64; count = 0; parent = parent })
empty-IsValidScope syms parent = record {
  capacity_eq = refl;
  width = refl;
  placed = λ b. rw (get_or-replicate {A = List ℕ} 64 b []) tt;
  distinct = λ b. rw (get_or-replicate {A = List ℕ} 64 b []) tt;
  counted = refl;
}
