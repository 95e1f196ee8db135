-- ===== src/Client/Output/Pieces.antt =====
-- crates/executor/client/src/io.rs: the pieces of requests that `merge_requests` works with,
-- described without its set of processed chunks.
use mathlib.Core.List.{append_assoc}
use pico_subblock.Prelude.{
  ℕ, zero, suc, ◌%◌, ◌≤◌, ◌≡◌, refl, subst, ap, sym, ◌∙◌, Bool, true, false, ◌&&◌, List, [], ◌∷◌,
  ◌++◌, ◌==◌, ==_iff, beq, eq_of_beq, if◌then◌else◌, length, take, drop, arith, Bool-cases, inl,
  inr,
}
use pico_subblock.Client.Block.{Bytes}
use pico_subblock.Client.Output.{Processed, contains, new_data, chunks, request_data_len}

-- A type with a piece of its data.
abbrev pub Piece : Type 0
Piece = ℕ × Bytes

abbrev pub same_piece : Piece → Piece → Bool
same_piece (f, d) (g, e) = f == g && beq d e

abbrev pub remove : Piece → List Piece → List Piece
remove x [] = []
remove x (y ∷ ys) = let rest = remove x ys in if same_piece x y then rest else y ∷ rest

-- Each piece at its first occurrence.
abbrev pub first_each : List Piece → List Piece
first_each [] = []
first_each (x ∷ xs) = x ∷ remove x (first_each xs)

-- The data of one type, in order.
abbrev pub joined : ℕ → List Piece → Bytes
joined t [] = []
joined t ((f, d) ∷ ps) = let rest = joined t ps in if f == t then d ++ rest else rest

abbrev pub tagged : ℕ → List Bytes → List Piece
tagged t [] = []
tagged t (d ∷ ds) = (t, d) ∷ tagged t ds

abbrev pub concat_bytes : List Bytes → Bytes
concat_bytes [] = []
concat_bytes (d ∷ ds) = d ++ concat_bytes ds

-- The length of a piece: 192 for deposits, 76 for withdrawals, 116 for consolidations, if the data
-- is made up of such pieces; else the data is one piece.
abbrev pub piece_size : ℕ → ℕ → ℕ
piece_size t n =
    let unit = λ (u : ℕ). if n % u == 0 then u else n in
    if t == 0 then unit 192 else if t == 1 then unit 76 else if t == 2 then unit 116 else n

-- All pieces have the length, the last one may have less.
abbrev pub AreOfSize : ℕ → List Bytes → Type 0
AreOfSize n [] = Unit
AreOfSize n (p ∷ []) = (1 ≤ length p) × (length p ≤ n)
AreOfSize n (p ∷ q ∷ ps) = (length p ≡ n) × AreOfSize n (q ∷ ps)

-- The pieces of requests, in order.
abbrev pub AreSplit : List Bytes → List Piece → Type 0
AreSplit [] ps = ps ≡ []
AreSplit ([] ∷ rs) ps = AreSplit rs ps
AreSplit ((t ∷ rest) ∷ rs) ps =
    (own : List Bytes) × (later : List Piece) × (ps ≡ tagged t own ++ later)
    × (concat_bytes own ≡ rest)
    × AreOfSize (piece_size t (length rest)) own
    × AreSplit rs later

pub size-piece_size :
    (t n : ℕ) → (if n % request_data_len t n == 0 then request_data_len t n else n) ≡ piece_size t n
unfolding request_data_len
size-piece_size t n = ground arith

-- A request of a known type, or with data, has pieces that are not empty.
pub piece_size_positive : (t n : ℕ) → (request_data_len t n == 0) ≡ false → 1 ≤ piece_size t n
unfolding request_data_len
piece_size_positive t n h = ground arith

-- What the code keeps, piece by piece.
abbrev pub fresh : Processed → List Piece → List Piece
fresh processed [] = []
fresh processed (x ∷ xs) =
    let skipped = fresh processed xs in
    let kept = fresh (x ∷ processed) xs in if contains processed x.0 x.1 then skipped else x ∷ kept

abbrev without : Processed → List Piece → List Piece
without processed [] = []
without processed (x ∷ xs) =
    let rest = without processed xs in if contains processed x.0 x.1 then rest else x ∷ rest

without-nothing : (l : List Piece) → without [] l ≡ l
unfolding contains
without-nothing [] = refl
without-nothing (x ∷ xs) = ap (λ l. x ∷ l) (without-nothing xs)

known_same :
    (processed : Processed) (f g : ℕ) (d e : Bytes)
    → (f == g && beq d e) ≡ true
    → contains processed f d ≡ true
    → contains processed g e ≡ true
known_same processed f g d e same h = elim (Bool-cases (f == g)) [
  | inl fg ↦
      let same' = rw fg at same in
      subst (λ x. contains processed x e ≡ true) ((==_iff f g).0 fg)
        (subst (λ x. contains processed f x ≡ true) (eq_of_beq d e same') h)
  | inr other ↦ let same' = rw other at same in absurd (cc)
]

-- A piece that is processed is passed over in any case.
without-remove_known :
    (processed : Processed) (x : Piece) (l : List Piece)
    → contains processed x.0 x.1 ≡ true
    → without processed (remove x l) ≡ without processed l
without-remove_known processed x [] h = refl
without-remove_known processed (f, d) ((g, e) ∷ l) h = elim (Bool-cases (f == g && beq d e)) [
  | inl same ↦
      let known = known_same processed f g d e same h in
      rw (same, known) (without-remove_known processed (f, d) l h)
  | inr other ↦ elim (Bool-cases (contains processed g e)) [
    | inl known ↦ rw (other, known) (without-remove_known processed (f, d) l h)
    | inr new ↦
        rw (other, new)
          (ap (λ (x : List Piece). (g, e) ∷ x) (without-remove_known processed (f, d) l h))
  ]
]

without-remove :
    (processed : Processed) (x : Piece) (l : List Piece)
    → without processed (remove x l) ≡ without (x ∷ processed) l
unfolding contains
without-remove processed x [] = refl
without-remove processed (f, d) ((g, e) ∷ l) = elim (Bool-cases (f == g && beq d e)) [
  | inl same ↦ rw same (without-remove processed (f, d) l)
  | inr other ↦ elim (Bool-cases (contains processed g e)) [
    | inl known ↦ rw (other, known) (without-remove processed (f, d) l)
    | inr new ↦
        rw (other, new) (ap (λ (x : List Piece). (g, e) ∷ x) (without-remove processed (f, d) l))
  ]
]

fresh-without :
    (processed : Processed) (l : List Piece) → fresh processed l ≡ without processed (first_each l)
unfolding contains
fresh-without processed [] = refl
fresh-without processed ((f, d) ∷ l) = elim (Bool-cases (contains processed f d)) [
  | inl known ↦
      rw known (
        fresh-without processed l
        ∙ sym (without-remove_known processed (f, d) (first_each l) known))
  | inr new ↦ rw new (
      ap (λ (x : List Piece). (f, d) ∷ x)
        (fresh-without ((f, d) ∷ processed) l
          ∙ sym (without-remove processed (f, d) (first_each l))))
]

-- From an empty set, what is kept is each piece at its first occurrence.
pub fresh-first_each : (l : List Piece) → fresh [] l ≡ first_each l
fresh-first_each l = fresh-without [] l ∙ without-nothing (first_each l)

-- The data that is new in the chunks of a request, and what comes after it.
pub joined-new_data :
    (t first : ℕ) (processed : Processed) (cs : List Bytes) (later : List Piece)
    → joined t (fresh processed (tagged first cs ++ later)) ≡ (
        if first == t
        then (new_data processed first cs).0
          ++ joined t (fresh (new_data processed first cs).1 later)
        else joined t (fresh (new_data processed first cs).1 later))
unfolding new_data
joined-new_data t first processed [] later = elim (Bool-cases (first == t)) [
  | inl same ↦ rw same refl
  | inr other ↦ rw other refl
]
joined-new_data t first processed (c ∷ cs) later = elim (Bool-cases (contains processed first c)) [
  | inl known ↦ rw known (joined-new_data t first processed cs later)
  | inr new ↦
      let rest = joined-new_data t first ((first, c) ∷ processed) cs later in
      elim (Bool-cases (first == t)) [
        | inl same ↦
            let rest' = rw same at rest in
            rw (new, same) (ap (λ x. c ++ x) rest' ∙ sym (append_assoc c _ _))
        | inr other ↦ let rest' = rw other at rest in rw (new, other) rest'
      ]
]

take-drop : (n : ℕ) (l : Bytes) → take n l ++ drop n l ≡ l
take-drop zero l = refl
take-drop (suc n) [] = refl
take-drop (suc n) (x ∷ l) = ap (λ y. x ∷ y) (take-drop n l)

length-take_le : (n : ℕ) (l : Bytes) → length (take n l) ≤ n
length-take_le zero l = omega arith
length-take_le (suc n) [] = omega arith
length-take_le (suc n) (x ∷ l) = let r = length-take_le n l in omega (arith, r)

length-drop_le : (n : ℕ) (l : Bytes) → length (drop n l) ≤ length l
length-drop_le zero l = omega arith
length-drop_le (suc n) [] = omega arith
length-drop_le (suc n) (x ∷ l) = let r = length-drop_le n l in omega (arith, r)

length-take_full :
    (n : ℕ) (l : Bytes) (b : ℕ) (rest : Bytes) → drop n l ≡ b ∷ rest → length (take n l) ≡ n
length-take_full zero l b rest e = refl
length-take_full (suc n) [] b rest e = absurd (cc)
length-take_full (suc n) (x ∷ l) b rest e =
    let r = length-take_full n l b rest e in omega (arith, r)

-- The chunks of a slice put together are the slice.
pub concat-chunks :
    (fuel n : ℕ) (l : Bytes) → length l ≤ fuel → 1 ≤ n → concat_bytes (chunks fuel n l) ≡ l
unfolding chunks
concat-chunks zero n [] h p = refl
concat-chunks zero n (b ∷ l) h p = absurd (omega (arith, h))
concat-chunks (suc fuel) n [] h p = refl
concat-chunks (suc fuel) zero (b ∷ l) h p = absurd (omega (arith, p))
concat-chunks (suc fuel) (suc n) (b ∷ l) h p =
    let d = length-drop_le n l in
    ap (λ x. b ∷ (take n l ++ x)) (concat-chunks fuel (suc n) (drop n l) (omega (arith, h, d)) p)
    ∙ ap (λ x. b ∷ x) (take-drop n l)

-- A piece before the chunks of what is left.
size_before :
    (fuel n : ℕ) (p rest : Bytes)
    → 1 ≤ length p
    → length p ≤ n
    → ((b : ℕ) (l : Bytes) → rest ≡ b ∷ l → length p ≡ n)
    → length rest ≤ fuel
    → AreOfSize n (chunks fuel n rest)
    → AreOfSize n (p ∷ chunks fuel n rest)
unfolding chunks
size_before zero n p [] some_data most full h s = (some_data, most)
size_before (suc fuel) n p [] some_data most full h s = (some_data, most)
size_before zero n p (b ∷ l) some_data most full h s = absurd (omega (arith, h))
size_before (suc fuel) n p (b ∷ l) some_data most full h s = (full b l refl, s)

pub chunks-AreOfSize :
    (fuel n : ℕ) (l : Bytes) → length l ≤ fuel → 1 ≤ n → AreOfSize n (chunks fuel n l)
unfolding chunks
chunks-AreOfSize zero n l h p = tt
chunks-AreOfSize (suc fuel) n [] h p = tt
chunks-AreOfSize (suc fuel) zero (b ∷ l) h p = absurd (omega (arith, p))
chunks-AreOfSize (suc fuel) (suc n) (b ∷ l) h p =
    let d = length-drop_le n l in
    let t = length-take_le n l in
    size_before fuel (suc n) (b ∷ take n l) (drop n l) (omega arith) (omega (arith, t))
      (λ x r e. let f = length-take_full n l x r e in omega (arith, f)) (omega (arith, h, d))
      (chunks-AreOfSize fuel (suc n) (drop n l) (omega (arith, h, d)) p)
