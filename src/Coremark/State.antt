-- ===== src/Coremark/State.antt =====
-- coremark/src/core_state.c: the state machine that scans tokens, and the benchmark around it.
-- A `ee_u8 *` into the block is the list of the bytes from there to the block's end.
pub mod Scan
pub mod Grammar
pub mod Corrupt
pub mod Bench
pub mod Input
use gandiva.Base.{
  ℕ, zero, suc, ◌+◌, ◌-◌, ◌*◌, ◌/◌, ◌%◌, ◌^◌, bit_xor, Bool, true, false, ◌&&◌, ◌||◌,
}
use gandiva.Base.{List, [], ◌∷◌, ltb, leb, ◌==◌, if◌then◌else◌, u8, u32, neg16, get_or, set, length}
use gandiva.Base.{Run, ok, fault, out_of_fuel, ◌>>=◌, load, store, drop, replicate}
use gandiva.Coremark.Crc.{crcu32}

-- enum CORE_STATE
pub data CoreState : Type 0 where
  start invalid s1 s2 int float exponent scientific : CoreState

unfoldable pub index : CoreState → ℕ
index start = 0
index invalid = 1
index s1 = 2
index s2 = 3
index int = 4
index float = 5
index exponent = 6
index scientific = 7

abbrev pub num_core_states : ℕ
num_core_states = 8

abbrev pub is_invalid : CoreState → Bool
is_invalid invalid = true
is_invalid _ = false

-- An array of `ee_u32` with a place for each state; `bump` is `counts[state]++`.
abbrev pub Counts : Type 0
Counts = List ℕ

unfoldable pub bump : CoreState → Counts → Counts
unfolding index
bump s counts = set counts (index s) (u32 (get_or counts (index s) 0 + 1))

abbrev pub ee_isdigit : ℕ → Bool
ee_isdigit c = leb b'0' c && leb c b'9'

abbrev pub is_sign : ℕ → Bool
is_sign c = c == b'+' || c == b'-'

-- The `switch` of `core_state_transition` at a symbol: the next state, and the transition
-- counts that the case adds to, in order.
unfoldable pub dispatch : CoreState → ℕ → CoreState
dispatch start c =
    if ee_isdigit c then int else if is_sign c then s1 else if c == b'.' then float else invalid
dispatch s1 c = if ee_isdigit c then int else if c == b'.' then float else invalid
dispatch int c = if c == b'.' then float else if ee_isdigit c then int else invalid
dispatch float c = if c == b'E' || c == b'e' then s2 else if ee_isdigit c then float else invalid
dispatch s2 c = if is_sign c then exponent else invalid
dispatch exponent c = if ee_isdigit c then scientific else invalid
dispatch scientific c = if ee_isdigit c then scientific else invalid
dispatch invalid c = invalid

unfoldable pub count : CoreState → ℕ → Counts → Counts
count start c k = bump start (if is_invalid (dispatch start c) then bump invalid k else k)
count s1 c k = bump s1 k
count int c k = if c == b'.' then bump int k else if ee_isdigit c then k else bump int k
count float c k =
    if c == b'E' || c == b'e' then bump float k else if ee_isdigit c then k else bump float k
count s2 c k = bump s2 k
count exponent c k = bump exponent k
count scientific c k = if ee_isdigit c then k else bump invalid k
count invalid c k = k

pub record Scanned : Type 0 where
  pub state : CoreState
  pub rest : List ℕ
  pub counts : Counts

abbrev pub scanned : CoreState → List ℕ → Counts → Scanned
scanned s r k = record { state = s; rest = r; counts = k }

-- The `for` loop of `core_state_transition`. The byte at `str` is read before the state is
-- looked at, so a scan to the end of the block is a fault in every state.
unfoldable pub transition_loop : CoreState → List ℕ → Counts → Run Scanned
transition_loop s [] k = fault
transition_loop s (c ∷ str) k =
    let next = transition_loop (dispatch s c) str (count s c k) in
    if c == 0 || is_invalid s
    then ok (scanned s (c ∷ str) k)
    else if c == b','
    then ok (scanned s str k)
    else next

unfoldable pub core_state_transition : List ℕ → Counts → Run Scanned
unfolding transition_loop
core_state_transition instr transition_count = transition_loop start instr transition_count

pub record Tally : Type 0 where
  pub final : Counts
  pub track : Counts

abbrev pub tally : Counts → Counts → Tally
tally f t = record { final = f; track = t }

-- while (*p != 0) { fstate = core_state_transition(&p, track); final[fstate]++; }
unfoldable pub scan_all : ℕ → List ℕ → Tally → Run Tally
scan_all zero p t = out_of_fuel
scan_all (suc fuel) [] t = fault
scan_all (suc fuel) (c ∷ p) t =
    let more = core_state_transition (c ∷ p) t.track >>= λ r.
    scan_all fuel r.rest (tally (bump r.state t.final) r.counts) in
    if c == 0 then ok t else more

-- while (p < memblock + blksize) { if (*p != ',') *p ^= (ee_u8)seed; p += step; }
-- with `p` as an index. A negative step would leave the block at its front.
unfoldable pub corrupt : ℕ → ℕ → ℕ → ℕ → ℕ → List ℕ → Run (List ℕ)
corrupt zero blksize seed step p mem = out_of_fuel
corrupt (suc fuel) blksize seed step p mem =
    let body = load mem p >>= λ c.
    (if c == b',' then ok mem else store mem p (bit_xor c (u8 seed))) >>= λ mem'.
    if neg16 step then fault else corrupt fuel blksize seed step (p + step) mem' in
    if ltb p blksize then body else ok mem

-- for (i...) { crc = crcu32(final_counts[i], crc); crc = crcu32(track_counts[i], crc); }
unfoldable pub crc_counts : Counts → Counts → ℕ → ℕ
crc_counts (f ∷ fs) (t ∷ ts) crc = crc_counts fs ts (crcu32 t (crcu32 f crc))
crc_counts _ _ crc = crc

pub record Benched : Type 0 where
  pub crc : ℕ
  pub memblock : List ℕ

abbrev pub benched : ℕ → List ℕ → Benched
benched c m = record { crc = c; memblock = m }

abbrev pub no_counts : Counts
no_counts = replicate num_core_states 0

-- The scans and the passes of corruption each have one round for a byte and one more.
unfoldable pub core_bench_state : ℕ → List ℕ → ℕ → ℕ → ℕ → ℕ → Run Benched
core_bench_state blksize memblock seed1 seed2 step crc =
    scan_all (length memblock + 1) memblock (tally no_counts no_counts) >>= λ first.
    corrupt (blksize + 1) blksize seed1 step 0 memblock >>= λ corrupted.
    scan_all (length memblock + 1) corrupted first >>= λ second.
    corrupt (blksize + 1) blksize seed2 step 0 corrupted >>= λ restored.
    ok (benched (crc_counts second.final second.track crc) restored)
