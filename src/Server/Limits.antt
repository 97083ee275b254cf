-- ===== src/Server/Limits.antt =====
-- How many calls of a minute the rate limiter admits.
use oap_spec.Prelude.{
  ℕ, suc, ◌+◌, ◌-◌, ◌*◌, ◌/◌, ◌≤◌, ◌<◌, String, Bool, true, false, none, some, List, [], ◌∷◌, ◌≡◌,
  refl, arith, ◌⊎◌, ◌+s◌, ◌==◌, ◌=s=◌, if◌then◌else◌, ltb, All, length, eq_refl, Bool-cases, inl,
  inr,
}
use oap_spec.Server.RateLimit.{
  Bucket, Answer, admitted, Call, select_count, upsert, delete_old, or_zero, check_rpm,
}

abbrev pub is_admitted : Answer → Bool
is_admitted admitted = true
is_admitted _ = false

-- The table has no bucket of the key, or one whose count is `n` and that lives to `until` at least.
abbrev pub Counts : String → ℕ → ℕ → List Bucket → Type 0
Counts key until n [] = n ≡ 0
Counts key until n (b ∷ bs) =
    if b.bucket_key =s= key then (b.count ≡ n) × (until ≤ b.expires_at) else Counts key until n bs

select-alive :
    {n : ℕ} (b : Bucket) (now : ℕ)
    → b.count ≡ n
    → now < b.expires_at
    → or_zero (if ltb now b.expires_at then some b.count else none) ≡ n
select-alive b now same alive = ground arith

old-false : (b : Bucket) (now : ℕ) → now < b.expires_at → ltb b.expires_at now ≡ false
old-false b now h = ground arith

select-Counts :
    (key : String) (until n now : ℕ) (table : List Bucket)
    → Counts key until n table
    → now < until
    → or_zero (select_count key now table) ≡ n
unfolding select_count
select-Counts key until n now [] h l = omega (arith, h)
select-Counts key until n now (b ∷ bs) h l = elim (Bool-cases (b.bucket_key =s= key)) [
  | inl e ↦ let (same, alive) = rw e at h in rw e (select-alive b now same (omega (arith, alive)))
  | inr e ↦ rw e (select-Counts key until n now bs (rw e at h) l)
]

upsert-Counts :
    (key : String) (until n expires : ℕ) (table : List Bucket)
    → until ≤ expires
    → Counts key until n table
    → Counts key until (n + 1) (upsert key expires table)
unfolding upsert
upsert-Counts key until n expires [] l h = rw (eq_refl key) (omega (arith, h), l)
upsert-Counts key until n expires (b ∷ bs) l h = elim (Bool-cases (b.bucket_key =s= key)) [
  | inl e ↦ let (same, alive) = rw e at h in rw (e, e) (omega (arith, same), alive)
  | inr e ↦ rw (e, e) (upsert-Counts key until n expires bs l (rw e at h))
]

delete-Counts :
    (key : String) (until n now : ℕ) (table : List Bucket)
    → now < until
    → Counts key until (n + 1) table
    → Counts key until (n + 1) (delete_old now table)
unfolding delete_old
delete-Counts key until n now [] l h = h
delete-Counts key until n now (b ∷ bs) l h = elim (Bool-cases (b.bucket_key =s= key)) [
  | inl e ↦
      let (same, alive) = rw e at h in rw (old-false b now (omega (arith, alive)), e) (same, alive)
  | inr e ↦ elim (Bool-cases (ltb b.expires_at now)) [
    | inl old ↦ rw old (delete-Counts key until n now bs l (rw e at h))
    | inr live ↦ rw (live, e) (delete-Counts key until n now bs l (rw e at h))
  ]
]

collect-Counts :
    (key : String) (until n now : ℕ) (collects : Bool) (table : List Bucket)
    → now < until
    → Counts key until (n + 1) table
    → Counts key until (n + 1) (if collects then delete_old now table else table)
collect-Counts key until n now true table l h = delete-Counts key until n now table l h
collect-Counts key until n now false table l h = h

before_end : (now minute : ℕ) → now / 60000 ≡ minute → now < (minute + 1) * 60000
before_end now minute e = omega (arith, e)

end_before : (now minute : ℕ) → now / 60000 ≡ minute → (minute + 1) * 60000 ≤ now + 60000
end_before now minute e = omega (arith, e)

eqb-zero : (n : ℕ) → 0 < n → (n == 0) ≡ false
eqb-zero n h = ground arith

le_of_over : (rpm n : ℕ) → ltb rpm (n + 1) ≡ true → rpm ≤ n
le_of_over rpm n h = ground arith

lt_of_under : (rpm n : ℕ) → ltb rpm (n + 1) ≡ false → n < rpm
lt_of_under rpm n h = ground arith

module _ (show : ℕ → String) (rpm minute : ℕ) (principal action : String) where
  -- All readings of the call that matter fall into the minute.
  abbrev pub IsWithin : Call → Type 0
  IsWithin call = (call.bucket_at / 60000 ≡ minute) × (call.now / 60000 ≡ minute)

  abbrev minute_key : String
  minute_key = principal +s "__" +s action +s "__" +s show minute

  -- How many of the calls are admitted, one after the other.
  unfoldable pub admitted_calls : List Call → List Bucket → ℕ
  admitted_calls [] table = 0
  admitted_calls (call ∷ calls) table =
      let (answer, after) = check_rpm show rpm principal action call table in
      let rest = admitted_calls calls after in if is_admitted answer then suc rest else rest

  full_after :
      (calls : List Call) (n : ℕ) {k : ℕ}
      → k ≡ (if ltb rpm (n + length calls) then rpm - n else length calls)
      → n ≤ rpm
      → rpm ≤ n
      → k ≡ (if ltb rpm (n + suc (length calls)) then rpm - n else suc (length calls))
  full_after calls n e le full = ground arith

  one_more :
      (calls : List Call) (n : ℕ) {k : ℕ}
      → k ≡ (if ltb rpm (n + 1 + length calls) then rpm - (n + 1) else length calls)
      → n < rpm
      → suc k ≡ (if ltb rpm (n + suc (length calls)) then rpm - n else suc (length calls))
  one_more calls n e room = ground arith

  check_rpm-Counts :
      (call : Call) (n : ℕ) (table : List Bucket)
      → IsWithin call
      → 0 < rpm
      → Counts minute_key ((minute + 1) * 60000) n table
      → ((check_rpm show rpm principal action call table).1 ≡ table)
          × (is_admitted (check_rpm show rpm principal action call table).0 ≡ false)
          × (rpm ≤ n)
        ⊎ Counts minute_key
            ((minute + 1) * 60000)
            (n + 1)
            (check_rpm show rpm principal action call table).1
          × (is_admitted (check_rpm show rpm principal action call table).0 ≡ true)
          × (n < rpm)
  unfolding check_rpm
  check_rpm-Counts call n table w positive h =
      let ends = (minute + 1) * 60000 in
      let counted =
        select-Counts minute_key ends n call.now table h (before_end call.now minute w.1) in
      elim (Bool-cases (ltb rpm (n + 1))) [
        | inl over ↦
            rw (check_rpm, w.0, counted, eqb-zero rpm positive, over)
              (inl (refl, refl, le_of_over rpm n over))
        | inr under ↦
            rw (check_rpm, w.0, counted, eqb-zero rpm positive, under)
              (inr (
                collect-Counts minute_key ends n call.now call.collects _
                    (before_end call.now minute w.1)
                    (upsert-Counts minute_key ends n (call.now + 60000) table
                      (end_before call.now minute w.1) h),
                refl,
                lt_of_under rpm n under,
              ))
      ]

  admitted_calls-Counts :
      (calls : List Call) (n : ℕ) (table : List Bucket)
      → All IsWithin calls
      → 0 < rpm
      → n ≤ rpm
      → Counts minute_key ((minute + 1) * 60000) n table
      → admitted_calls calls table ≡ (if ltb rpm (n + length calls) then rpm - n else length calls)
  unfolding admitted_calls
  admitted_calls-Counts [] n table w positive le h = ground arith
  admitted_calls-Counts (call ∷ calls) n table w positive le h =
      elim (check_rpm-Counts call n table w.0 positive h) [
        | inl (same, refused, full) ↦
            rw (refused, same)
              (full_after calls n (admitted_calls-Counts calls n table w.1 positive le h) le full)
        | inr (counts, passed, room) ↦ rw passed (
            one_more calls n
              (admitted_calls-Counts calls (n + 1) _ w.1 positive (omega (arith, room)) counts)
              room)
      ]

  -- If the limit is not 0 and the table holds no bucket of the principal, the action and the minute,
  -- then of any calls in that minute exactly the first are admitted, as many as the limit, or all if
  -- they are no more; collecting old buckets in between makes no difference.
  pub admitted_calls-eq :
      (calls : List Call) (table : List Bucket)
      → 0 < rpm
      → All IsWithin calls
      → Counts minute_key ((minute + 1) * 60000) 0 table
      → admitted_calls calls table ≡ (if ltb rpm (length calls) then rpm else length calls)
  admitted_calls-eq calls table positive w h =
      ground (arith, admitted_calls-Counts calls 0 table w positive (omega arith) h)
