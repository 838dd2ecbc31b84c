-- ===== src/Kernel/Modules.antt =====
-- Which modules that return stop the kernel of pkg/kernel/kernel.go: runModule with what it defers, and
-- the goroutine of run in stage.go around it.
use gosoline.Prelude.{
  ℕ, suc, ◌-◌, ◌<◌, ◌≡◌, ◌∙◌, refl, inl, inr, Bool, true, false, not, ◌&&◌, List, [], ◌∷◌, eqb,
  if◌then◌else◌, arith, Bool-cases, All,
}

-- moduleConfig, as far as it is asked when the module returns
pub record ModuleConfig : Type 0 where
  pub essential : Bool
  pub background : Bool

-- What the goroutines of the modules share: foregroundModules, and whether Stop was called.
pub record Running : Type 0 where
  pub foreground_modules : ℕ
  pub stopping : Bool

-- A module returned or panicked, with an error or not.
pub record ModuleExit : Type 0 where
  pub config : ModuleConfig
  pub has_err : Bool

-- countForegroundModules
unfoldable pub count_foreground_modules : List ModuleConfig → ℕ
count_foreground_modules [] = 0
count_foreground_modules (m ∷ ms) =
    let count = count_foreground_modules ms in if m.background then count else suc count

abbrev pub stop : Running → Running
stop r = record r { stopping = true }

-- essentialModuleExited
unfoldable essential_module_exited : Bool → Running → Running
essential_module_exited has_err r = if has_err then r else stop r

-- foregroundModuleExited: a foreground module is counted, so that the counter is not 0 before
unfoldable foreground_module_exited : Bool → Running → Running
foreground_module_exited has_err r =
    let remaining = r.foreground_modules - 1 in
    let counted = record r { foreground_modules = remaining } in
    if eqb remaining 0 && not has_err then stop counted else counted

-- what runModule defers
unfoldable pub module_exited : ModuleExit → Running → Running
unfolding essential_module_exited foreground_module_exited
module_exited x r =
    if x.config.essential
    then essential_module_exited x.has_err r
    else if not x.config.background
    then foreground_module_exited x.has_err r
    else r

-- the goroutine that a stage runs a module in
unfoldable run_returned : ModuleExit → Running → Running
unfolding module_exited
run_returned x r = let s = module_exited x r in if x.has_err then stop s else s

-- The modules return one after the other.
unfoldable pub run_all_returned : List ModuleExit → Running → Running
unfolding run_returned
run_all_returned [] r = r
run_all_returned (x ∷ xs) r = run_all_returned xs (run_returned x r)

abbrev configs : List ModuleExit → List ModuleConfig
configs [] = []
configs (x ∷ xs) = x.config ∷ configs xs

run_returned-stopping :
    (x : ModuleExit) (r : Running) → r.stopping ≡ true → (run_returned x r).stopping ≡ true
unfolding run_returned
run_returned-stopping x r h = ground arith

run_all_returned-stopping :
    (xs : List ModuleExit) (r : Running)
    → r.stopping ≡ true
    → (run_all_returned xs r).stopping ≡ true
unfolding run_all_returned
run_all_returned-stopping [] r h = h
run_all_returned-stopping (x ∷ xs) r h =
    run_all_returned-stopping xs (run_returned x r) (run_returned-stopping x r h)

-- One return: the kernel goes on only if others that count are left.
run_returned_counts :
    (x : ModuleExit) (r : Running) (rest : ℕ)
    → r.foreground_modules ≡ (if x.config.background then rest else suc rest)
    → 0 < r.foreground_modules
    → (run_returned x r).stopping ≡ false
    → ((run_returned x r).foreground_modules ≡ rest) × (0 < rest)
unfolding run_returned
run_returned_counts x r rest h p q = ground arith

-- Once all foreground modules have returned, in whatever order and with or without errors, and whichever
-- background and essential modules have returned among them, Stop was called.
pub foreground_done_stops :
    (xs : List ModuleExit) (r : Running)
    → r.foreground_modules ≡ count_foreground_modules (configs xs)
    → 0 < r.foreground_modules
    → (run_all_returned xs r).stopping ≡ true
unfolding run_all_returned count_foreground_modules
foreground_done_stops [] r h p = absurd (omega (arith, h))
foreground_done_stops (x ∷ xs) r h p = elim (Bool-cases (run_returned x r).stopping) [
  | inl stops ↦ run_all_returned-stopping xs (run_returned x r) stops
  | inr runs ↦
      let (e, q) = run_returned_counts x r (count_foreground_modules (configs xs)) h p runs in
      foreground_done_stops xs (run_returned x r) e (omega (arith, e, q))
]

-- A return that is no reason to stop.
abbrev IsQuiet : ModuleExit → Type 0
IsQuiet x = (x.has_err ≡ false) × (x.config.essential ≡ false)

run_returned_quiet :
    (x : ModuleExit) (r : Running) (rest : ℕ)
    → IsQuiet x
    → (if x.config.background then rest else suc rest) < r.foreground_modules
    → ((run_returned x r).stopping ≡ r.stopping) × (rest < (run_returned x r).foreground_modules)
unfolding run_returned
run_returned_quiet x r rest h p = ground arith

-- Modules that return without an error, none of them essential, do not call Stop as long as a foreground
-- module is left, in whatever order they return.
pub others_left_runs_on :
    (xs : List ModuleExit) (r : Running)
    → All IsQuiet xs
    → count_foreground_modules (configs xs) < r.foreground_modules
    → (run_all_returned xs r).stopping ≡ r.stopping
unfolding run_all_returned count_foreground_modules
others_left_runs_on [] r h p = refl
others_left_runs_on (x ∷ xs) r (h, hs) p =
    let (e, q) = run_returned_quiet x r (count_foreground_modules (configs xs)) h p in
    others_left_runs_on xs (run_returned x r) hs q ∙ e
