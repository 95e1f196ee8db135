-- ===== src/Subblock/Gas/Cut.antt =====
-- `compute_subblock_gas_limits` of crates/executor/host/src/subblock/mod.rs: the loop, and the
-- cuts of a list of transactions into groups.
use native.Mathlib.Nat.{suc-mul, lt_of_mul-lt-mul_right, mul-le-mul_right}
use mathlib.Core.List.{append_assoc, append-nil}
use pico_subblock.Prelude.{
  ℕ, zero, suc, ◌+◌, ◌-◌, ◌*◌, ◌/◌, ◌^◌, ◌≤◌, ◌<◌, ◌≡◌, refl, ap, ◌∙◌, true, false, not, ◌&&◌, List,
  [], ◌∷◌, ◌++◌, ◌==◌, ltb, length, length-append, arith, All, Bool-cases, inl, inr,
}
use pico_subblock.Prelude.Word.{u64_id, sub_u64_lem}
use pico_subblock.Result.{ok}
use pico_subblock.Subblock.Gas.{Splitting, step, loop, last_limit}

abbrev pub total : List ℕ → ℕ
total [] = 0
total (x ∷ xs) = x + total xs

-- The gas `o` of an open group and the transactions after it, cut into groups: each limit is the
-- gas of one group, and no limit is zero.
pub data IsCut : ℕ → List ℕ → List ℕ → Type 0 where
  done : IsCut 0 [] []
  last : (o : ℕ) → 1 ≤ o → IsCut o [] (o ∷ [])
  join : (o tx : ℕ) (rs ls : List ℕ) → IsCut (o + tx) rs ls → IsCut o (tx ∷ rs) ls
  close : (o tx : ℕ) (rs ls : List ℕ) → 1 ≤ o → IsCut tx rs ls → IsCut o (tx ∷ rs) (o ∷ ls)

pub IsCut-total : {o : ℕ} {rs ls : List ℕ} → IsCut o rs ls → total ls ≡ o + total rs
IsCut-total done = refl
IsCut-total (last o h) = refl
IsCut-total (join o tx rs ls c) = omega (arith, IsCut-total c)
IsCut-total (close o tx rs ls h c) = omega (arith, IsCut-total c)

pub IsCut-positive : {o : ℕ} {rs ls : List ℕ} → IsCut o rs ls → All (λ x. 1 ≤ x) ls
IsCut-positive done = tt
IsCut-positive (last o h) = (h, tt)
IsCut-positive (join o tx rs ls c) = IsCut-positive c
IsCut-positive (close o tx rs ls h c) = (h, IsCut-positive c)

-- With no gas collected the next transaction opens a group.
opened : {t : ℕ} {rs ls : List ℕ} → IsCut 0 (t ∷ rs) ls → IsCut t rs ls
opened (join zero t rs ls c) = let z : 0 + t ≡ t = omega arith in rw z at c
opened (close zero t rs ls h c) = absurd (omega arith)

-- A group that is closed after its last transaction.
close_after :
    (o tx : ℕ) (rs ls : List ℕ) → 1 ≤ o + tx → IsCut 0 rs ls → IsCut o (tx ∷ rs) ((o + tx) ∷ ls)
close_after o tx [] [] h c = join o tx [] ((o + tx) ∷ []) (last (o + tx) h)
close_after o tx [] (l ∷ ls) h c = absurd (omega (arith, IsCut-total c, (IsCut-positive c).0))
close_after o tx (t ∷ rs) ls h c =
    join o tx (t ∷ rs) ((o + tx) ∷ ls) (close (o + tx) t rs ls h (opened c))

-- What holds of the loop's variables, with the transactions `rs` still to come. `k` limits are
-- collected when the gas has reached `k` times the target.
pub record Inv (goal gas : ℕ) (s : Splitting) (rs : List ℕ) : Type 0 where
  pub ordered : s.prev ≤ s.curr
  pub target : s.next ≡ suc (length s.limits) * gas
  pub reached : length s.limits * gas ≤ s.curr
  pub rest : s.curr + total rs ≡ goal

-- Where the loop goes from `s`: its limits are those of `s` and a cut of what is still to come.
pub record SplitFrom (limit : ℕ) (gas : ℕ) (s : Splitting) (rs : List ℕ) : Type 0 where
  pub final : Splitting
  pub runs : loop gas rs s ≡ ok final
  pub more : List ℕ
  pub limits : last_limit final ≡ s.limits ++ more
  pub cut : IsCut (s.curr - s.prev) rs more
  pub bounded : length (last_limit final) ≤ limit

-- The steps without wrap-around.
abbrev split_before : ℕ → ℕ → Splitting → Splitting
split_before gas tx s = record {
  prev = s.curr;
  curr = s.curr + tx;
  next = s.next + gas;
  limits = s.limits ++ ((s.curr - s.prev) ∷ []);
}

abbrev split_after : ℕ → ℕ → Splitting → Splitting
split_after gas tx s = record {
  prev = s.curr + tx;
  curr = s.curr + tx;
  next = s.next + gas;
  limits = s.limits ++ ((s.curr + tx - s.prev) ∷ []);
}

abbrev keep : ℕ → Splitting → Splitting
keep tx s = record { prev = s.prev; curr = s.curr + tx; next = s.next; limits = s.limits }

module _ (m goal gas : ℕ) (above : goal < m * gas) (under : m * gas ≤ goal + m)
    (small : 2 * (goal + m) < 2 ^ 64) where
  fewer : (s : Splitting) (rs : List ℕ) → Inv goal gas s rs → suc (length s.limits) ≤ m
  fewer s rs v =
      lt_of_mul-lt-mul_right gas {m = length s.limits} {n = m}
        (omega (arith, v.reached, v.rest, above))

  in_range : (s : Splitting) (rs : List ℕ) → Inv goal gas s rs → s.next + gas < 2 ^ 64
  in_range s rs v =
      let some_room = mul-le-mul_right gas (fewer s rs v) in
      let one_more = suc-mul (length s.limits) gas in
      omega (arith, some_room, one_more, under, small, v.target)

  length_push : (s : Splitting) (x : ℕ) → length (s.limits ++ (x ∷ [])) ≡ suc (length s.limits)
  length_push s x = omega (arith, length-append s.limits (x ∷ []))

  -- The three outcomes of a step.
  before-case :
      (s : Splitting) (tx : ℕ) (rs : List ℕ)
      → Inv goal gas s (tx ∷ rs)
      → (s.curr == s.prev) ≡ false
      → ltb (s.next + gas / 2) (s.curr + tx) ≡ true
      → (step gas tx s ≡ ok (split_before gas tx s))
        × Inv goal gas (split_before gas tx s) rs
        × (1 ≤ s.curr - s.prev)
  unfolding step
  before-case s tx rs v started big =
      let n = in_range s (tx ∷ rs) v in
      let room : s.prev < s.curr = ground (arith, v.ordered) in
      let grown = ap (λ n. n * gas) (length_push s (s.curr - s.prev)) in
      let grown' = ap (λ n. suc n * gas) (length_push s (s.curr - s.prev)) in
      let past : s.next < s.curr + tx = ground arith in
      let room' : ltb s.prev s.curr ≡ true = ground arith in
      (
        rw (
          u64_id (s.curr + tx) (omega (arith, v.rest, small)),
          u64_id (s.next + gas / 2) (omega arith),
          u64_id (s.next + gas) n,
          sub_u64_lem s.curr s.prev v.ordered (omega (arith, v.rest, small)),
          started,
          big,
          room',
        ),
        record {
          ordered = omega arith;
          target = omega (arith, v.target, suc-mul (suc (length s.limits)) gas, grown');
          reached = omega (arith, grown, v.target, past);
          rest = omega (arith, v.rest);
        },
        omega arith,
      )

  after-case :
      (s : Splitting) (tx : ℕ) (rs : List ℕ)
      → Inv goal gas s (tx ∷ rs)
      → 1 ≤ tx
      → (not (s.curr == s.prev) && ltb (s.next + gas / 2) (s.curr + tx)) ≡ false
      → ltb s.next (s.curr + tx) ≡ true
      → (step gas tx s ≡ ok (split_after gas tx s))
        × Inv goal gas (split_after gas tx s) rs
        × (1 ≤ s.curr + tx - s.prev)
  unfolding step
  after-case s tx rs v some_gas small_tx full =
      let n = in_range s (tx ∷ rs) v in
      let grown = ap (λ n. n * gas) (length_push s (s.curr + tx - s.prev)) in
      let grown' = ap (λ n. suc n * gas) (length_push s (s.curr + tx - s.prev)) in
      let past : s.next < s.curr + tx = ground arith in
      let before : s.prev ≤ s.curr + tx = omega (arith, v.ordered) in
      (
        rw (
          u64_id (s.curr + tx) (omega (arith, v.rest, small)),
          u64_id (s.next + gas / 2) (omega arith),
          u64_id (s.next + gas) n,
          sub_u64_lem (s.curr + tx) s.prev before (omega (arith, v.rest, small)),
          small_tx,
          full,
        ),
        record {
          ordered = omega arith;
          target = omega (arith, v.target, suc-mul (suc (length s.limits)) gas, grown');
          reached = omega (arith, grown, v.target, past);
          rest = omega (arith, v.rest);
        },
        omega (arith, v.ordered, some_gas),
      )

  keep-case :
      (s : Splitting) (tx : ℕ) (rs : List ℕ)
      → Inv goal gas s (tx ∷ rs)
      → (not (s.curr == s.prev) && ltb (s.next + gas / 2) (s.curr + tx)) ≡ false
      → ltb s.next (s.curr + tx) ≡ false
      → (step gas tx s ≡ ok (keep tx s)) × Inv goal gas (keep tx s) rs
  unfolding step
  keep-case s tx rs v small_tx short =
      let n = in_range s (tx ∷ rs) v in
      (
        rw (
          u64_id (s.curr + tx) (omega (arith, v.rest, small)),
          u64_id (s.next + gas / 2) (omega arith),
          small_tx,
          short,
        ),
        record {
          ordered = omega (arith, v.ordered);
          target = v.target;
          reached = omega (arith, v.reached);
          rest = omega (arith, v.rest);
        },
      )

  at_end : (s : Splitting) → Inv goal gas s [] → SplitFrom m gas s []
  unfolding loop last_limit
  at_end s v = elim (Bool-cases (s.curr == s.prev)) [
    | inl same ↦
        let empty : s.curr - s.prev ≡ 0 = ground arith in
        record {
          final = s;
          runs = refl;
          more = [];
          limits = rw (same, append-nil s.limits);
          cut = rw empty done;
          bounded = rw same (omega (arith, fewer s [] v));
        }
    | inr other ↦
        let some_gas : 1 ≤ s.curr - s.prev = ground (arith, v.ordered) in
        let difference = sub_u64_lem s.curr s.prev v.ordered (omega (arith, v.rest, small)) in
        record {
          final = s;
          runs = refl;
          more = (s.curr - s.prev) ∷ [];
          limits = rw (other, difference);
          cut = last (s.curr - s.prev) some_gas;
          bounded =
              rw (other, difference) (omega (arith, length_push s (s.curr - s.prev), fewer s [] v));
        }
  ]

  extend :
      (s s' : Splitting) (tx : ℕ) (rs more : List ℕ)
      → step gas tx s ≡ ok s'
      → (r : SplitFrom m gas s' rs) → s'.limits ++ r.more ≡ s.limits ++ more
      → IsCut (s.curr - s.prev) (tx ∷ rs) more
      → SplitFrom m gas s (tx ∷ rs)
  unfolding loop
  extend s s' tx rs more e r l c = record {
    final = r.final;
    runs = rw e r.runs;
    more = more;
    limits = r.limits ∙ l;
    cut = c;
    bounded = r.bounded;
  }

  pub split_from :
      (s : Splitting) (rs : List ℕ) → Inv goal gas s rs → All (λ x. 1 ≤ x) rs → SplitFrom m gas s rs
  split_from s [] v p = at_end s v
  split_from s (tx ∷ rs) v p =
      elim (Bool-cases (not (s.curr == s.prev) && ltb (s.next + gas / 2) (s.curr + tx))) [
        | inl big ↦
            let c = before-case s tx rs v (ground arith) (ground arith) in
            let r = split_from (split_before gas tx s) rs c.1 p.1 in
            let only : s.curr + tx - s.curr ≡ tx = omega arith in
            let rest : IsCut tx rs r.more = rw only at r.cut in
            extend s (split_before gas tx s) tx rs ((s.curr - s.prev) ∷ r.more) c.0 r
              (append_assoc s.limits ((s.curr - s.prev) ∷ []) r.more)
              (close (s.curr - s.prev) tx rs r.more c.2 rest)
        | inr small_tx ↦ elim (Bool-cases (ltb s.next (s.curr + tx))) [
          | inl full ↦
              let c = after-case s tx rs v p.0 small_tx full in
              let r = split_from (split_after gas tx s) rs c.1 p.1 in
              let none_left : s.curr + tx - (s.curr + tx) ≡ 0 = omega arith in
              let rest : IsCut 0 rs r.more = rw none_left at r.cut in
              let sum : s.curr + tx - s.prev ≡ s.curr - s.prev + tx = omega (arith, v.ordered) in
              extend s (split_after gas tx s) tx rs ((s.curr + tx - s.prev) ∷ r.more) c.0 r
                (append_assoc s.limits ((s.curr + tx - s.prev) ∷ []) r.more)
                (rw sum (close_after (s.curr - s.prev) tx rs r.more (omega (arith, p.0)) rest))
          | inr short ↦
              let c = keep-case s tx rs v small_tx short in
              let r = split_from (keep tx s) rs c.1 p.1 in
              let sum : s.curr + tx - s.prev ≡ s.curr - s.prev + tx = omega (arith, v.ordered) in
              let rest : IsCut (s.curr - s.prev + tx) rs r.more = rw sum at r.cut in
              extend s (keep tx s) tx rs r.more c.0 r refl
                (join (s.curr - s.prev) tx rs r.more rest)
        ]
      ]
