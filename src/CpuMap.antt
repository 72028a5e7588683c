-- ===== src/CpuMap.antt =====
-- src/apps/common/cpu_map.cpp: the lists of processors in the environment. A string is its bytes.
pub mod RoundTrip
pub mod Examples
use vstreamer.Base.{
  ℕ, ℤ, List, pos, if◌then◌else◌, ◌%◌, ◌∷◌, Option, [], Outcome, ◌++◌, ltb, ◌^◌, ◌==◌, none, suc,
  some, ◌>>=◌, take, ok, err, length, negsuc, ◌||◌, einval, ◌&&◌, drop, zero, ◌-◌, ◌+◌, fault, Bool,
  not, false, true,
}
use vstreamer.KeyUtil.{key_parse_i64, decimal}
use vstreamer.Queues.{is_empty}
use vstreamer.Rtp.Pay.{same_bytes}

-- `static_cast<int>` of an int64_t: the low 32 bits, with their sign.
abbrev pub signed32 : ℕ → ℤ
signed32 w = if ltb w (2 ^ 31) then pos w else negsuc (2 ^ 32 - w - 1)

unfoldable pub to_int : ℤ → ℤ
to_int (pos n) = signed32 (n % 2 ^ 32)
to_int (negsuc n) = signed32 (2 ^ 32 - 1 - n % 2 ^ 32)

unfoldable pub skip_separators : List ℕ → List ℕ
skip_separators [] = []
skip_separators (c ∷ s) = let rest = skip_separators s in if c == 44 || c == 32 then rest else c ∷ s

-- What stands before the next comma, and what follows it.
unfoldable pub token : List ℕ → List ℕ × List ℕ
token [] = ([], [])
token (c ∷ s) = let t = token s in if c == 44 then ([], s) else (c ∷ t.0, t.1)

-- `token.find('-')`.
unfoldable pub find_dash : List ℕ → Option ℕ
find_dash [] = none
find_dash (c ∷ s) =
    if c == 45 then some 0 else elim (find_dash s) [ none ↦ none | some i ↦ some (suc i) ]

-- `n` numbers from `a` on.
unfoldable pub count_up : ℕ → ℤ → List ℤ
count_up zero a = []
count_up (suc n) (pos a) = to_int (pos a) ∷ count_up n (pos (suc a))
count_up (suc n) (negsuc zero) = to_int (negsuc zero) ∷ count_up n (pos 0)
count_up (suc n) (negsuc (suc a)) = to_int (negsuc (suc a)) ∷ count_up n (negsuc a)

-- The numbers from `a` to `b`. The loop counts in an int64_t: up to the largest one it overflows.
unfoldable pub range : ℤ → ℤ → Outcome (List ℤ)
range (pos a) (pos b) =
    if ltb b a
    then err einval
    else if b == 2 ^ 63 - 1
    then fault
    else ok (count_up (b - a + 1) (pos a))
range (pos a) (negsuc b) = err einval
range (negsuc a) (pos b) = if b == 2 ^ 63 - 1 then fault else ok (count_up (a + b + 2) (negsuc a))
range (negsuc a) (negsuc b) = if ltb a b then err einval else ok (count_up (a - b + 1) (negsuc a))

-- Whether the dash has a byte before it and one behind it.
abbrev pub splits : List ℕ → Option ℕ → Option ℕ
splits t none = none
splits t (some dash) = if ltb 0 dash && ltb (dash + 1) (length t) then some dash else none

unfoldable pub parse_single : List ℕ → Outcome (List ℤ)
parse_single t = key_parse_i64 t >>= (λ v. ok (to_int v ∷ []))

unfoldable pub parse_range : ℕ → List ℕ → Outcome (List ℤ)
parse_range dash t =
    key_parse_i64 (take dash t) >>= (λ a. key_parse_i64 (drop (dash + 1) t) >>= (λ b. range a b))

unfoldable pub parse_token : List ℕ → Outcome (List ℤ)
parse_token t = elim (splits t (find_dash t)) [
  | none ↦ parse_single t
  | some dash ↦ parse_range dash t
]

-- The loop of parse_cpulist, over what is left of the string; a round takes a byte at least. `out` is
-- what is in the vector, which stays there when the result is false.
unfoldable pub parse_tokens : ℕ → List ℕ → List ℤ → Outcome (List ℤ × Bool)
parse_tokens zero spec out = ok (out, not (is_empty out))
parse_tokens (suc fuel) spec out = elim (skip_separators spec) [
  | [] ↦ ok (out, not (is_empty out))
  | c ∷ s ↦ elim (parse_token (token (c ∷ s)).0) [
    | ok vs ↦ parse_tokens fuel (token (c ∷ s)).1 (out ++ vs)
    | err e ↦ ok (out, false)
    | fault ↦ fault
  ]
]

-- parse_cpulist, `out` not null: the vector and the result.
unfoldable pub parse_cpulist : List ℕ → Outcome (List ℤ × Bool)
parse_cpulist spec = if is_empty spec then ok ([], false) else parse_tokens (length spec) spec []

unfoldable pub format_more : List ℤ → List ℕ
format_more [] = []
format_more (v ∷ vs) = 44 ∷ decimal v ++ format_more vs

unfoldable pub format_cpulist : List ℤ → List ℕ
format_cpulist [] = []
format_cpulist (v ∷ vs) = decimal v ++ format_more vs

pub record CpuStageMap : Type 0 where
  pub source : ℤ
  pub jpeg : ℤ
  pub encode : ℤ
  pub rx : ℤ
  pub jpeg_workers : List ℤ

unfoldable pub default_map : CpuStageMap
default_map = record {
  source = pos 0;
  jpeg = pos 1;
  encode = pos 2;
  rx = pos 3;
  jpeg_workers = pos 4 ∷ pos 5 ∷ pos 6 ∷ pos 7 ∷ [];
}

abbrev pub key_source : List ℕ
key_source = 115 ∷ 111 ∷ 117 ∷ 114 ∷ 99 ∷ 101 ∷ []

abbrev pub key_jpeg : List ℕ
key_jpeg = 106 ∷ 112 ∷ 101 ∷ 103 ∷ []

abbrev pub key_encode : List ℕ
key_encode = 101 ∷ 110 ∷ 99 ∷ 111 ∷ 100 ∷ 101 ∷ []

abbrev pub key_rx : List ℕ
key_rx = 114 ∷ 120 ∷ []

abbrev pub key_jpeg_workers : List ℕ
key_jpeg_workers = key_jpeg ++ 95 ∷ 119 ∷ 111 ∷ 114 ∷ 107 ∷ 101 ∷ 114 ∷ 115 ∷ []

-- set_stage_int writes its target on success alone. Here: what is written where it succeeds.
abbrev pub set_number : (ℤ → CpuStageMap) → CpuStageMap → Outcome ℤ → Outcome (CpuStageMap × Bool)
set_number write m (ok v) = ok (write (to_int v), true)
set_number write m (err e) = ok (m, false)
set_number write m fault = fault

unfoldable pub set_stage_int :
    (ℤ → CpuStageMap) → List ℕ → CpuStageMap → Outcome (CpuStageMap × Bool)
set_stage_int write val m = set_number write m (key_parse_i64 val)

-- `find` of a byte: what stands before and behind it.
unfoldable pub split_at : ℕ → List ℕ → Option (List ℕ × List ℕ)
split_at b [] = none
split_at b (c ∷ s) =
    if c == b
    then some ([], s)
    else elim (split_at b s) [ none ↦ none | some r ↦ some (c ∷ r.0, r.1) ]

-- The value `val` for the stage `stage`: `none` for a stage that is not known.
unfoldable pub set_stage : List ℕ → List ℕ → CpuStageMap → Option (Outcome (CpuStageMap × Bool))
set_stage stage val m =
    if same_bytes stage key_source
    then some (set_stage_int (λ v. record m { source = v }) val m)
    else if same_bytes stage key_jpeg
    then some (set_stage_int (λ v. record m { jpeg = v }) val m)
    else if same_bytes stage key_encode
    then some (set_stage_int (λ v. record m { encode = v }) val m)
    else if same_bytes stage key_rx
    then some (set_stage_int (λ v. record m { rx = v }) val m)
    else if same_bytes stage key_jpeg_workers
    then some (parse_cpulist val >>= (λ r. ok (record m { jpeg_workers = r.0 }, r.1)))
    else none

-- An entry `stage=value`: the map, the flag, and whether the loop goes on.
abbrev pub entered :
    CpuStageMap → Option (Outcome (CpuStageMap × Bool)) → Outcome (CpuStageMap × Bool × Bool)
entered m none = ok (m, false, false)
entered m (some (ok r)) = ok (r.0, r.1, true)
entered m (some (err e)) = ok (m, false, true)
entered m (some fault) = fault

unfoldable pub enter : CpuStageMap → Option (List ℕ × List ℕ) → Outcome (CpuStageMap × Bool × Bool)
enter m none = ok (m, false, false)
enter m (some ([], val)) = ok (m, false, false)
enter m (some (c ∷ stage, val)) = entered m (set_stage (c ∷ stage) val m)

-- The loop of parse_cpu_map: an entry up to the next semicolon, and on behind it. The flag is that of
-- the last entry.
unfoldable pub parse_entries : ℕ → List ℕ → CpuStageMap → Outcome (CpuStageMap × Bool)
parse_entries zero spec m = ok (m, true)
parse_entries (suc fuel) spec m = elim (split_at 59 spec) [
  | none ↦ (enter m (split_at 61 spec) >>= (λ r. ok (r.0, r.1)))
  | some cut ↦
      (enter m (split_at 61 cut.0)
        >>= (λ r. if r.2 then parse_entries fuel cut.1 r.0 else ok (r.0, r.1)))
]

unfoldable pub parse_cpu_map : List ℕ → Outcome CpuStageMap
parse_cpu_map spec =
    if is_empty spec
    then ok default_map
    else (parse_entries (length spec) spec default_map
        >>= (λ r. ok (if r.1 then r.0 else default_map)))
