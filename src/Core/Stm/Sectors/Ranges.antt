-- ===== src/Core/Stm/Sectors/Ranges.antt =====
-- The sectors that are listed for a range are the ones that it touches.
use airfrog.Prelude.{
  ℕ, ◌+◌, ◌-◌, ◌*◌, ◌%◌, ◌^◌, ◌≡◌, ◌≤◌, ◌<◌, arith, true, false, Bool-cases, inl, inr, ltb, leb,
  ◌&&◌, ltb→lt, if◌then◌else◌, Option, some, none, List, [], ◌∷◌, All, ◌⊎◌, ◌↔◌, ltb→lt,
}
use airfrog.Core.Stm.{StmDetails, flash_size_bytes}
use airfrog.Core.Stm.Sectors.{
  sector_sizes, sectors_from, sectors_within, get_sectors_from_word_range,
}

-- Whether a number is in a list.
abbrev pub Has : ℕ → List ℕ → Type 0
Has i [] = ⊥
Has i (j ∷ rest) = (i ≡ j) ⊎ Has i rest

-- The sectors that a range of bytes touches, in a layout that goes on from a number and a place with
-- these sizes: those that start no later than the range ends, and end no earlier than it starts.
abbrev pub Touches : (first last num addr : ℕ) → List ℕ → ℕ → Type 0
Touches first last num addr [] i = ⊥
Touches first last num addr (size ∷ rest) i =
    ((i ≡ num) × ((first < addr + size) × (addr ≤ last)))
    ⊎ Touches first last (num + 1) (addr + size) rest i

module _ {E Q H T : Type 0} where
  taken : Q → (H ↔ T) → (E ⊎ H) ↔ ((E × Q) ⊎ T)
  taken q (to, from) = (forth, back)
    where
      forth : E ⊎ H → (E × Q) ⊎ T
      forth (inl e) = inl (e, q)
      forth (inr h) = inr (to h)

      back : (E × Q) ⊎ T → E ⊎ H
      back (inl (e, _)) = inl e
      back (inr t) = inr (from t)

  skipped : ¬ Q → (H ↔ T) → H ↔ ((E × Q) ⊎ T)
  skipped miss (to, from) = ((λ h. inr (to h)), back)
    where
      back : (E × Q) ⊎ T → H
      back (inl (_, q)) = absurd (miss q)
      back (inr t) = from t

module _ (first last : ℕ) where
  -- Nothing is touched after the end of the range.
  past_end :
      (num addr : ℕ) (sizes : List ℕ) (i : ℕ) → last < addr → ¬ Touches first last num addr sizes i
  past_end num addr [] i h t = t
  past_end num addr (size ∷ rest) i h (inl (e, (a, b))) = omega arith
  past_end num addr (size ∷ rest) i h (inr t) =
      past_end (num + 1) (addr + size) rest i (omega arith) t

  -- The test of the loop, and what is listed if the later sectors are listed right.
  listed_here :
      (num addr size : ℕ)
      → 0 < size
      → ((leb first (addr + size - 1) && leb addr last) ≡ true)
        ↔ ((first < addr + size) × (addr ≤ last))
  listed_here num addr size h = ground arith

  sectors_from-Touches :
      (num addr : ℕ) (sizes : List ℕ) (i : ℕ)
      → All (λ size. 0 < size) sizes
      → Has i (sectors_from first last num addr sizes) ↔ Touches first last num addr sizes i
  unfolding sectors_from
  sectors_from-Touches num addr [] i h = ((λ x. x), (λ x. x))
  sectors_from-Touches num addr (size ∷ rest) i (p, ps) =
      let later = sectors_from-Touches (num + 1) (addr + size) rest i ps in
      let here = listed_here num addr size p in
      let none_later : last < addr + size → ¬ Touches first last (num + 1) (addr + size) rest i =
        past_end (num + 1) (addr + size) rest i in
      let Rest = Has i (
        if ltb last (addr + size)
        then []
        else sectors_from first last (num + 1) (addr + size) rest) in
      let more : Rest ↔ Touches first last (num + 1) (addr + size) rest i =
        elim (Bool-cases (ltb last (addr + size))) [
          | inl e ↦ rw e ((λ x. absurd x), none_later (ltb→lt last (addr + size) e))
          | inr e ↦ rw e later
        ] in
      elim (Bool-cases (leb first (addr + size - 1) && leb addr last)) [
        | inl c ↦ rw c (taken (here.0 c) more)
        | inr c ↦
            rw c (skipped (λ q. let m = here.1 q in let bad : false ≡ true = rw c at m in cc) more)
      ]

-- What passes the checks is the list of the loop, on bytes that have not wrapped.
sectors_within-some :
    (start_word end_word : ℕ) (size : Option ℕ) (sectors : List ℕ)
    → start_word < 2 ^ 30
    → end_word < 2 ^ 30
    → sectors_within start_word end_word size ≡ some sectors
    → sectors_from (start_word * 4) (end_word * 4 + 3) 0 0 sector_sizes ≡ sectors
unfolding sectors_within
sectors_within-some start_word end_word none sectors hs he h = cc
sectors_within-some start_word end_word (some flash_size) sectors hs he h =
    let first : start_word * 4 % 2 ^ 32 ≡ start_word * 4 = omega arith in
    let last : end_word * 4 % 2 ^ 32 ≡ end_word * 4 = omega arith in
    let checked = rw (first, last) at h in
    elim (Bool-cases (ltb flash_size ((end_word * 4 + 4) % 2 ^ 32))) [
      | inl e ↦ let none_left : none ≡ some sectors = rw e at checked in absurd cc
      | inr e ↦
          let found : some (sectors_from (start_word * 4) (end_word * 4 + 3) 0 0 sector_sizes)
              ≡ some sectors =
            rw e at checked in
          cc
    ]

-- For words whose bytes a `u32` can address, the sectors listed, if any are, are exactly those of the
-- table that the range touches, from its first byte to the last byte of its last word.
pub get_sectors_from_word_range-Touches :
    (d : StmDetails) (start_word end_word : ℕ) (sectors : List ℕ) (i : ℕ)
    → start_word < 2 ^ 30
    → end_word < 2 ^ 30
    → get_sectors_from_word_range d start_word end_word ≡ some sectors
    → Has i sectors ↔ Touches (start_word * 4) (end_word * 4 + 3) 0 0 sector_sizes i
unfolding get_sectors_from_word_range
get_sectors_from_word_range-Touches d start_word end_word sectors i hs he h =
    let passed : sectors_within start_word end_word (flash_size_bytes d) ≡ some sectors =
      ground arith in
    let listed =
      sectors_within-some start_word end_word (flash_size_bytes d) sectors hs he passed in
    let all_positive : All (λ size. 0 < size) sector_sizes = ground arith in
    rw listed at
      (sectors_from-Touches (start_word * 4) (end_word * 4 + 3) 0 0 sector_sizes i all_positive)
