-- ===== src/Coremark/Main/Whole.antt =====
-- main of coremark/src/core_main.c from the seeds to the report, for one context: the composition of
-- the parts in Main/Setup, Main and Main/Report.
use gandiva.Base.{
  ℕ, zero, suc, Option, none, some, ◌^◌, ◌≤◌, ◌<◌, ◌≡◌, ◌≢◌, refl, arith, ne→==, ◌==◌,
  if◌then◌else◌, List, ◌++◌, append_assoc, Run, ok, ◌>>=◌,
}
use gandiva.Coremark.Calc.{Results}
use gandiva.Coremark.Calc.Caches.{IsReady}
use gandiva.Coremark.List.{Heap}
use gandiva.Coremark.List.Init.Ready.{IsList}
use gandiva.Coremark.Main.{Iterating, iterate}
use gandiva.Coremark.Main.Iterations.{iterate_lem}
use gandiva.Coremark.Main.Setup.{
  Volatiles, Seeds, read_seeds, default_seeds, block_size, Ready, call_inits,
}
use gandiva.Coremark.Main.Report.{
  Timed, get_time, calibrate_loop, set_iterations, seedcrc, known_id, Crcs, Sizes, total_errors,
}
use gandiva.Coremark.Main.Report.Valid.{Fitting, known_id_lt, total_errors_iff}
use gandiva.Coremark.Main.Report.Print.{
  Call, Reported, figures, seconds, settings, crc_lines, report, run_line, error_lines, verdict,
}

-- What the build and the hardware give: the sizes of the data types, the texts of the macros, the
-- clock at the calibration and at the benchmark, and the cells where the matrix C stands.
pub record Setting : Type 0 where
  pub sizes : Sizes
  pub compiler_version : List ℕ
  pub compiler_flags : List ℕ
  pub mem_location : List ℕ
  pub calibration : List Timed
  pub timed : Timed
  pub c : List ℕ

-- results[0] after the inits.
abbrev pub results_of : Seeds → ℕ → List ℕ → Ready → Results
results_of s size c ready = record {
  size = size;
  memblock = ready.state;
  seed1 = s.seed1;
  seed2 = s.seed2;
  seed3 = s.seed3;
  n = ready.matrix.params.n;
  c = c;
  a = ready.matrix.a;
  b = ready.matrix.b;
  crc = 0;
  crcstate = 0;
  crcmatrix = 0;
}

-- The results and the heap before the benchmark, with the number of iterations.
pub record Planned : Type 0 where
  pub iterations : ℕ
  pub res : Results
  pub heap : Heap

-- results[0].iterations == 0: automatically determined.
unfoldable pub plan : ℕ → List Timed → ℕ → ℕ → Results → Heap → Run Planned
plan fuel clock list iterations res h =
    let determined =
      calibrate_loop clock fuel list 1 0 (record { res = res; crclist = 0; heap = h }) >>= λ c.
      ok (record { iterations = set_iterations c; res = c.state.res; heap = c.state.heap }) in
    if iterations == 0
    then determined
    else ok (record { iterations = iterations; res = res; heap = h })

abbrev pub crcs_of : Iterating → Crcs
crcs_of s = record { crclist = s.crclist; crcmatrix = s.res.crcmatrix; crcstate = s.res.crcstate }

abbrev pub reported_of : Setting → Seeds → ℕ → ℕ → Iterating → Reported
reported_of e s size iterations done = record {
  size = size;
  total_time = get_time e.timed.start e.timed.stop;
  iterations = iterations;
  execs = s.execs;
  seedcrc = seedcrc s size;
  crclist = done.crclist;
  crcmatrix = done.res.crcmatrix;
  crcstate = done.res.crcstate;
  crc = done.res.crc;
  compiler_version = e.compiler_version;
  compiler_flags = e.compiler_flags;
  mem_location = e.mem_location;
}

-- From the end of the benchmark on.
unfoldable pub conclude : Setting → Seeds → ℕ → ℕ → Iterating → Run (List Call)
conclude e s size iterations done =
    let id = known_id (seedcrc s size) in
    error_lines s.execs (crcs_of done) id >>= λ wrong.
    total_errors s size (crcs_of done) e.sizes >>= λ errors.
    report (reported_of e s size iterations done) errors >>= λ lines.
    ok (run_line id ++ wrong ++ lines)

unfoldable pub main : ℕ → Setting → Volatiles → ℕ → Ready → Run (List Call)
main fuel e v memblock old =
    let s = default_seeds (read_seeds v) in
    block_size s.execs >>= λ size. call_inits fuel s memblock old >>= λ ready.
    plan fuel e.calibration ready.list.list s.iterations (results_of s size e.c ready)
      ready.list.heap
    >>= λ p. iterate fuel ready.list.list p.iterations p.res p.heap >>= λ done.
        conclude e s size p.iterations done

suc_of : (n : ℕ) → n ≢ 0 → (m : ℕ) × (n ≡ suc m)
suc_of zero h = absurd (h refl)
suc_of (suc m) h = (m, refl)

error_lines-ok :
    (execs : ℕ) (c : Crcs) (o : Option ℕ)
    → ((id : ℕ) → o ≡ some id → id < 5)
    → (lines : List Call) × (error_lines execs c o ≡ ok lines)
unfolding error_lines
error_lines-ok execs c none known = (_, refl)
error_lines-ok execs c (some id) known = within id (known id refl)
  where
    within : (k : ℕ) → k < 5 → (lines : List Call) × (error_lines execs c (some k) ≡ ok lines)
    within zero lt = (_, refl)
    within (suc zero) lt = (_, refl)
    within (suc (suc zero)) lt = (_, refl)
    within (suc (suc (suc zero))) lt = (_, refl)
    within (suc (suc (suc (suc zero)))) lt = (_, refl)
    within (suc (suc (suc (suc (suc k))))) lt = absurd (omega arith)

figures-ok :
    (r : Reported)
    → r.iterations ≢ 0
    → r.total_time ≢ 0
    → (lines : List Call) × (figures r ≡ ok lines)
unfolding figures
figures-ok r some_iterations some_ticks =
    rw (ne→== r.iterations 0 some_iterations, ne→== r.total_time 0 some_ticks) (_, refl)

report-ok :
    (r : Reported) (errors : ℕ)
    → r.iterations ≢ 0
    → r.total_time ≢ 0
    → (lines : List Call) × (report r errors ≡ ok (lines ++ verdict errors))
unfolding report
report-ok r errors some_iterations some_ticks =
    let (lines, e) = figures-ok r some_iterations some_ticks in
    (lines ++ seconds r ++ settings r ++ crc_lines r, rw e refl)

conclude-verdict :
    (e : Setting) (s : Seeds) (size iterations : ℕ) (done : Iterating)
    → iterations ≢ 0
    → get_time e.timed.start e.timed.stop ≢ 0
    → Fitting e.sizes
    → (lines : List Call) × (n : ℕ) × (total_errors s size (crcs_of done) e.sizes ≡ ok n)
      × (conclude e s size iterations done ≡ ok (lines ++ verdict n))
unfolding conclude
conclude-verdict e s size iterations done some_iterations some_ticks fit =
    let id = known_id (seedcrc s size) in
    let (wrong, f) = error_lines-ok s.execs (crcs_of done) id (known_id_lt (seedcrc s size)) in
    let (n, g, iff, unknown) = total_errors_iff s size (crcs_of done) e.sizes fit in
    let (lines, h) =
      report-ok (reported_of e s size iterations done) n some_iterations some_ticks in
    let v = verdict n in
    (
      run_line id ++ wrong ++ lines,
      n,
      g,
      rw (f, g, h, append_assoc (run_line id ++ wrong) lines v) refl,
    )

-- main for some iterations and some ticks, for data types of the right sizes, when the inits return a
-- list of 3 to 2^31 - 1 items as core_list_init leaves it and results that are ready for the
-- benchmarks, and with more fuel than items: it returns, and the last of the lines that it prints
-- is the verdict on the errors of the run, which is the run of iterate for the iterations of the
-- seeds. The CRC of the list after that run is that of a single iteration, and the list is again as
-- core_list_init leaves it.
pub main_lem :
    (fuel : ℕ) (e : Setting) (v : Volatiles) (memblock : ℕ) (old ready : Ready) (s : Seeds)
    (size items : ℕ)
    → default_seeds (read_seeds v) ≡ s
    → block_size s.execs ≡ ok size
    → call_inits fuel s memblock old ≡ ok ready
    → s.iterations ≢ 0
    → get_time e.timed.start e.timed.stop ≢ 0
    → Fitting e.sizes
    → IsList ready.list.list items ready.list.heap
    → IsReady (results_of s size e.c ready)
    → 3 ≤ items
    → items < 2 ^ 31
    → items < fuel
    → (first : Iterating) × (last : Iterating) × (lines : List Call) × (n : ℕ) × (iterate fuel
          ready.list.list 1
          (results_of s size e.c ready)
          ready.list.heap
        ≡ ok first)
      × (iterate fuel ready.list.list s.iterations (results_of s size e.c ready) ready.list.heap
          ≡ ok last)
      × (last.crclist ≡ first.crclist)
      × IsList ready.list.list items last.heap
      × (total_errors s size (crcs_of last) e.sizes ≡ ok n)
      × (main fuel e v memblock old ≡ conclude e s size s.iterations last)
      × (main fuel e v memblock old ≡ ok (lines ++ verdict n))
unfolding main plan
main_lem fuel e v memblock old ready s size items seeds sized inits some_iterations some_ticks fit
      is runs three small enough =
    let (m, number) = suc_of s.iterations some_iterations in
    let res = results_of s size e.c ready in
    let (first, last, f, g, crc, held, is', ready') =
      iterate_lem fuel ready.list.list items m res ready.list.heap is runs three small enough in
    let g' : iterate fuel ready.list.list s.iterations res ready.list.heap ≡ ok last =
      rw number g in
    let (lines, n, counted, concluded) =
      conclude-verdict e s size s.iterations last some_iterations some_ticks fit in
    (
      first,
      last,
      lines,
      n,
      f,
      g',
      crc,
      is',
      counted,
      rw (seeds, sized, inits, ne→== s.iterations 0 some_iterations, g') refl,
      rw (seeds, sized, inits, ne→== s.iterations 0 some_iterations, g') concluded,
    )
