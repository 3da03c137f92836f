-- ===== src/KernelCompiler/Laws.antt =====
-- When a kernel is taken for compiled.
use Prim.Native.String.{String}
use mathlib.Core.Path.{subst}
use lpowerprobe.Common.{
  ◌↔◌, ℕ, ◌≡◌, refl, ap, ◌∙◌, ◌⊎◌, inl, inr, Option, none, some, ◌==◌, Bool-cases, Option-cases,
  arith,
}
use lpowerprobe.KernelCompiler.{trace_system_command, gcc_command, compile}

-- Why a compilation is taken for done: gcc ended with 0, or it could not be started and the temporary
-- file has descriptor 0.
pub data IsCompiled (popen : String → Option (String × ℕ)) (fd : ℕ) (command : String)
    : Type 0 where
  by_gcc : (output : String) → popen command ≡ some (output, 0) → IsCompiled popen fd command
  by_chance : popen command ≡ none → fd ≡ 0 → IsCompiled popen fd command

module _ (popen : String → Option (String × ℕ)) where
  traced_at :
      (command : String) (res : ℕ)
      → ((popen command ≡ none) × (trace_system_command popen command res ≡ ("", res)))
        ⊎ ((output : String) × (status : ℕ) × (popen command ≡ some (output, status))
            × (trace_system_command popen command res ≡ (output, status)))
  unfolding trace_system_command
  traced_at command res = elim (Option-cases (popen command)) [
    | inl failed ↦ inl (failed, rw (trace_system_command, failed) refl)
    | inr ((output, status), ran) ↦ inr (output, status, ran, rw (trace_system_command, ran) refl)
  ]

  IsCompiled-at :
      (fd : ℕ) (name input : String)
      → ((compile (some (fd, name)) popen input ≡ some name)
          × IsCompiled popen fd (gcc_command name input))
        ⊎ (compile (some (fd, name)) popen input ≡ none)
  unfolding compile
  IsCompiled-at fd name input = elim (traced_at (gcc_command name input) fd) [
    | inl (failed, traced) ↦ elim (Bool-cases (fd == 0)) [
      | inl zero_fd ↦ inl (rw (traced, zero_fd) refl, by_chance failed (ground arith))
      | inr other ↦ inr (rw (traced, other) refl)
    ]
    | inr (output, status, ran, traced) ↦ elim (Bool-cases (status == 0)) [
      | inl ok ↦
          let zero_status : status ≡ 0 = ground arith in
          inl (rw (traced, ok) refl, by_gcc output (ran ∙ ap (λ n. some (output, n)) zero_status))
      | inr failed ↦ inr (rw (traced, failed) refl)
    ]
  ]

  compiled_if :
      (fd : ℕ) (name input : String)
      → IsCompiled popen fd (gcc_command name input)
      → compile (some (fd, name)) popen input ≡ some name
  unfolding compile trace_system_command
  compiled_if fd name input (by_gcc output ran) = rw (compile, trace_system_command, ran) refl
  compiled_if fd name input (by_chance failed zero_fd) =
      rw (compile, trace_system_command, failed, zero_fd) refl

  IsCompiled-only :
      (fd : ℕ) (name' input name : String)
      → compile (some (fd, name')) popen input ≡ some name
      → (name' ≡ name) × IsCompiled popen fd (gcc_command name' input)
  IsCompiled-only fd name' input name h = elim (IsCompiled-at fd name' input) [
    | inl (done, why) ↦ (cc, why)
    | inr failed ↦ absurd (cc)
  ]

  none_compiled : (input name : String) → compile none popen input ≡ some name → ⊥
  unfolding compile
  none_compiled input name h = cc

  -- A file counts as compiled exactly if mkstemp gives it, and either gcc runs and ends with 0, or gcc
  -- cannot be started and the descriptor of the temporary file is 0; the output is then that file.
  pub compile_lem :
      (made : Option (ℕ × String)) (input name : String)
      → (compile made popen input ≡ some name)
        ↔ ((fd : ℕ) × (made ≡ some (fd, name)) × IsCompiled popen fd (gcc_command name input))
  compile_lem none input name =
      (λ h. absurd (none_compiled input name h), λ h. let (fd, made, why) = h in absurd (cc))
  compile_lem (some (fd, name')) input name = (
    λ h.
        let (same, why) = IsCompiled-only fd name' input name h in
        (
          fd,
          ap (λ n. some (fd, n)) same,
          subst (λ n. IsCompiled popen fd (gcc_command n input)) same why,
        ),
    λ h.
        let (fd', made, why) = h in
        ap (λ o. compile o popen input) made ∙ compiled_if fd' name input why,
  )
