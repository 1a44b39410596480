-- ===== src/Utils/ActiveBits/Laws.antt =====
-- qmdb/src/utils/activebits.rs: the sparse bitmap against a plain set of numbers.
use qmdb.Common.{
  ℕ, ◌/◌, ◌%◌, ◌<◌, ◌≡◌, refl, Bool, true, false, not, none, some, ◌==◌, if◌then◌else◌, arith,
  Option-cases, inl, inr, Bool-cases, ◌∙◌, ap,
}
use qmdb.Extern.Dashmap.{DashMap}
use qmdb.Utils.ActiveBits.Segment.{Segment}
use qmdb.Utils.ActiveBits.Segment
use qmdb.Utils.ActiveBits.Segment.Word.{bit}
use qmdb.Utils.ActiveBits.Segment.Laws.{
  IsSegment, new-IsSegment, bit-new, get_lem, set_returns, set_result, set_result-IsSegment,
  set_result-bits, clear_returns, clear_result, clear_result-IsSegment, clear_result-bits,
  bit_of_count_zero,
}
use qmdb.Utils.ActiveBits.{ActiveBits, with_capacity, get, set, clear, bit_count}

module _ (dash : DashMap Segment) where
  -- The bitmap holds the set `s`, and every segment that it keeps is in use.
  pub record Shows (ab : ActiveBits dash) (s : ℕ → Bool) : Type 0 where
    pub segments :
        (i : ℕ) (seg : Segment) → dash.get ab.m i ≡ some seg → IsSegment seg × (0 < seg.count)
    pub bits : (n : ℕ) → get dash ab n ≡ some (s n)

  get_present :
      (ab : ActiveBits dash) (n : ℕ) (seg : Segment)
      → dash.get ab.m (n / bit_count) ≡ some seg
      → IsSegment seg
      → get dash ab n ≡ some (not (bit seg.arr (n % bit_count) == 0))
  unfolding get
  get_present ab n seg e v = rw (e, get) (get_lem seg v (n % bit_count) (omega arith))

  get_absent :
      (ab : ActiveBits dash) (n : ℕ)
      → dash.get ab.m (n / bit_count) ≡ none
      → get dash ab n ≡ some false
  unfolding get
  get_absent ab n e = rw (e, get) refl

  get_cong :
      (a b : ActiveBits dash) (n : ℕ)
      → dash.get a.m (n / bit_count) ≡ dash.get b.m (n / bit_count)
      → get dash a n ≡ get dash b n
  unfolding get
  get_cong a b n e = rw (e, get) refl

  -- A fresh bitmap holds nothing.
  pub with_capacity-Shows : (n : ℕ) → Shows (with_capacity dash n) (λ k. false)
  unfolding with_capacity
  with_capacity-Shows n = record {
    segments = λ i seg e. ground (arith, dash.get-with_capacity n i);
    bits = λ k. get_absent (with_capacity dash n) k (dash.get-with_capacity n (k / bit_count));
  }

  -- The bitmap with one segment replaced, where that segment differs from what `n` had in the
  -- bit of `n` only.
  replaced-Shows :
      (ab : ActiveBits dash) (s : ℕ → Bool) (n : ℕ) (seg : Segment) (b : Bool)
      → Shows ab s
      → IsSegment seg
      → 0 < seg.count
      → ((k : ℕ)
          → k / bit_count ≡ n / bit_count
          → not (bit seg.arr (k % bit_count) == 0) ≡ (if k == n then b else s k))
      → Shows (record { m = dash.insert ab.m (n / bit_count) seg }) (λ k. if k == n then b else s k)
  replaced-Shows ab s n seg b v w p same = record {
    segments = λ i x e. ground (arith, dash.get-insert ab.m (n / bit_count) seg i, v.segments i x);
    bits = λ k. elim (Bool-cases (n / bit_count == k / bit_count)) [
      | inl e ↦
          get_present (record { m = dash.insert ab.m (n / bit_count) seg }) k seg
            (rw (dash.get-insert ab.m (n / bit_count) seg (k / bit_count), e) refl) w
          ∙ ap some (same k (ground arith))
      | inr e ↦
          get_cong (record { m = dash.insert ab.m (n / bit_count) seg }) ab k
            (rw (dash.get-insert ab.m (n / bit_count) seg (k / bit_count), e) refl)
          ∙ v.bits k
          ∙ ground arith
    ];
  }

  -- What the bitmap shows of a segment.
  shown :
      (ab : ActiveBits dash) (s : ℕ → Bool) (n k : ℕ) (seg : Segment)
      → Shows ab s
      → dash.get ab.m (n / bit_count) ≡ some seg
      → k / bit_count ≡ n / bit_count
      → s k ≡ not (bit seg.arr (k % bit_count) == 0)
  shown ab s n k seg v e same =
      ground (arith, get_present ab k seg (rw same e) (v.segments _ seg e).0, v.bits k)

  unshown :
      (ab : ActiveBits dash) (s : ℕ → Bool) (n k : ℕ)
      → Shows ab s
      → dash.get ab.m (n / bit_count) ≡ none
      → k / bit_count ≡ n / bit_count
      → s k ≡ false
  unshown ab s n k v e same = ground (arith, get_absent ab k (rw same e), v.bits k)

  set_segment :
      (ab : ActiveBits dash) (s : ℕ → Bool) (n : ℕ) (seg : Segment) (w : IsSegment seg)
      → Shows ab s
      → ((k : ℕ) → k / bit_count ≡ n / bit_count → s k ≡ not (bit seg.arr (k % bit_count) == 0))
      → Shows
          (record {
            m = dash.insert ab.m (n / bit_count) (set_result seg w (n % bit_count) (omega arith));
          })
          (λ k. if k == n then true else s k)
  set_segment ab s n seg w v was =
      replaced-Shows ab s n (set_result seg w (n % bit_count) (omega arith)) true v
        (set_result-IsSegment seg w (n % bit_count) (omega arith)).0
        (set_result-IsSegment seg w (n % bit_count) (omega arith)).1
        (λ k same.
          ground
            (arith, was k, set_result-bits seg w (n % bit_count) (omega arith) (k % bit_count)))

  -- `set` returns on every well-formed bitmap, adds its number and changes no other.
  pub set-Shows :
      (ab : ActiveBits dash) (s : ℕ → Bool) (n : ℕ)
      → Shows ab s
      → (ab' : ActiveBits dash) × (set dash ab n ≡ some ab')
        × Shows ab' (λ k. if k == n then true else s k)
  unfolding set
  set-Shows ab s n v = elim (Option-cases (dash.get ab.m (n / bit_count))) [
    | inl e ↦ (
      _,
      rw (e, set, set_returns Segment.new new-IsSegment (n % bit_count) (omega arith)) refl,
      set_segment ab s n Segment.new new-IsSegment v
          (λ k same. ground (arith, unshown ab s n k v e same, bit-new (k % bit_count))),
    )
    | inr (old, e) ↦ (
      _,
      rw (e, set, set_returns old (v.segments _ old e).0 (n % bit_count) (omega arith)) refl,
      set_segment ab s n old (v.segments _ old e).0 v (λ k same. shown ab s n k old v e same),
    )
  ]

  module _ (ab : ActiveBits dash) (s : ℕ → Bool) (n : ℕ) (v : Shows ab s) where
    abbrev without : ℕ → Bool
    without k = if k == n then false else s k

    module _ (seg : Segment) (w : IsSegment seg)
        (e : dash.get ab.m (n / bit_count) ≡ some seg) where
      abbrev left : Segment × Bool
      left = clear_result seg w (n % bit_count) (omega arith)

      left-bits :
          (k : ℕ)
          → k / bit_count ≡ n / bit_count
          → not (bit left.0.arr (k % bit_count) == 0) ≡ without k
      left-bits k same = ground (
        arith,
        shown ab s n k seg v e same,
        clear_result-bits seg w (n % bit_count) (omega arith) (k % bit_count),
      )

      keep_segment :
          left.1 ≡ false → Shows (record { m = dash.insert ab.m (n / bit_count) left.0 }) without
      keep_segment stays =
          replaced-Shows ab s n left.0 false v
            (clear_result-IsSegment seg w (n % bit_count) (omega arith)).0
            ((clear_result-IsSegment seg w (n % bit_count) (omega arith)).2 stays
              (v.segments _ seg e).1)
            left-bits

      abbrev dropped : ActiveBits dash
      dropped = record { m = dash.remove (dash.insert ab.m (n / bit_count) left.0) (n / bit_count) }

      get-dropped :
          (i : ℕ) → dash.get dropped.m i ≡ (if n / bit_count == i then none else dash.get ab.m i)
      get-dropped i = ground (
        arith,
        dash.get-remove (dash.insert ab.m (n / bit_count) left.0) (n / bit_count) i,
        dash.get-insert ab.m (n / bit_count) left.0 i,
      )

      -- Dropping the segment loses no bit.
      drop_segment : left.1 ≡ true → Shows dropped without
      drop_segment gone = record {
        segments = λ i x f. ground (arith, get-dropped i, v.segments i x);
        bits = λ k. elim (Bool-cases (n / bit_count == k / bit_count)) [
          | inl same ↦
              get_absent dropped k (rw (get-dropped (k / bit_count), same) refl)
              ∙ ground (
                arith,
                left-bits k (ground arith),
                bit_of_count_zero left.0
                    (clear_result-IsSegment seg w (n % bit_count) (omega arith)).0
                    ((clear_result-IsSegment seg w (n % bit_count) (omega arith)).1 gone)
                    (k % bit_count) (omega arith),
              )
          | inr other ↦
              get_cong dropped ab k (rw (get-dropped (k / bit_count), other) refl)
              ∙ v.bits k
              ∙ ground arith
        ];
      }

    -- `clear` returns on every well-formed bitmap, takes its number out, changes no other, and
    -- keeps no segment that it has emptied.
    pub clear-Shows :
        (ab' : ActiveBits dash) × (clear dash ab n ≡ some ab')
        × Shows ab' (λ k. if k == n then false else s k)
    unfolding clear
    clear-Shows = elim (Option-cases (dash.get ab.m (n / bit_count))) [
      | inl e ↦ (
        ab,
        rw (e, clear) refl,
        record {
          segments = v.segments;
          bits = λ k. v.bits k ∙ ground (arith, unshown ab s n n v e refl);
        },
      )
      | inr (seg, e) ↦
          let w = (v.segments _ seg e).0 in
          let runs = clear_returns seg w (n % bit_count) (omega arith) in
          elim (Bool-cases (left seg w e).1) [
            | inl gone ↦
                (dropped seg w e, rw (e, clear, runs, gone) refl, drop_segment seg w e gone)
            | inr stays ↦ (_, rw (e, clear, runs, stays) refl, keep_segment seg w e stays)
          ]
    ]
