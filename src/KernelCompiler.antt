-- ===== src/KernelCompiler.antt =====
-- src/KernelCompiler.cpp and src/Kernel.cpp: the assembly file of a kernel is made a shared library by gcc,
-- in a temporary file, and its entry point is looked up. mkstemp, popen and dlsym are parameters.
pub mod Laws
use Prim.Native.String.{String, ◌++◌}
use lpowerprobe.Common.{ℕ, Option, none, some, ◌>>=◌, ◌==◌, if◌then◌else◌}

-- `popen` gives what the command prints and its status, or nothing; the result is then not written.
unfoldable pub trace_system_command : (String → Option (String × ℕ)) → String → ℕ → String × ℕ
trace_system_command popen command result = elim (popen command) [
  | none ↦ ("", result)
  | some traced ↦ traced
]

unfoldable pub gcc_command : String → String → String
gcc_command output_name input_file =
    "gcc -fPIC -O3 -Wall -Wextra -shared -Wl,-soname," ++ output_name ++ " -o " ++ output_name
    ++ " " ++ input_file

-- `made` is what `mkstemp` gives, the open file and its name; the result is the output file.
unfoldable pub compile :
    Option (ℕ × String) → (String → Option (String × ℕ)) → String → Option String
unfolding trace_system_command
compile made popen input_file = do
  (res, output_name) ← made
  (let (command_output, res') =
        trace_system_command popen (gcc_command output_name input_file) res in
      if res' == 0 then some output_name else none)

-- The constructor of a kernel's experimentation: the kernel and the dummy kernel; `none` is the
-- KernelCompilationException.
unfoldable pub compile_kernels :
    Option (ℕ × String)
    → Option (ℕ × String)
    → (String → Option (String × ℕ))
    → String
    → String
    → Option (String × String)
unfolding compile
compile_kernels made made_dummy popen exec_name dummy_kernel_file = do
  kernel_file ← compile made popen exec_name
  dummy_file ← compile made_dummy popen dummy_kernel_file
  some (kernel_file, dummy_file)

-- The null pointer is `none`; `dlsym` looks a name up in a library.
unfoldable pub load_function : (String → String → Option ℕ) → String → String → Option ℕ
load_function dlsym library fct_name = dlsym library fct_name
