-- ===== src/Lib.antt =====
-- lPowerProbe runs a program or a kernel, or waits as a daemon, and measures it with probes:
-- shared libraries that are started before and stopped after each run.
--
-- The parts and how they interact:
--   The loader opens the libraries that the user names as probes of version 2 or 1. The collector
--   starts and stops all of them together, and a thread of it updates those with a period. Each
--   stop stores what the probes return in the results, run by run and probe by probe. The writer
--   sums and averages the runs of the overhead, takes the average off each measured run, and
--   writes a table.
--
-- Before that main settles the options, which choose the experimentation: a daemon, which measures
-- from signal to signal, a program, or a kernel. The threads that run a kernel are kept in step by
-- a process of its own; those that run a program, each in a child that it forks, by the first of
-- them. Of the probe libraries five are modelled: the counters of energy, read in the process or
-- by a server that its clients reach over a shared memory, the counters of libpfm, a power meter
-- on a serial port, and the barrier and the counting of the timer on ARM.
--
-- The files:
--   Common (and Common/): lists on the native numbers and their elements counted by a weight,
--     Boolean tests, `for` loops that may stop the program, and well-foundedness of <.
--   Double: what the code does with a double, as an interface of which nothing is assumed.
--   ProbeData, ProbeData/: src/ProbeData.cpp, src/ProbeData.hpp (constructor, getValue, setData,
--     +=, /=, -, <<).
--   RunData: src/RunData.cpp, src/RunData.hpp.
--   Results, Results/: src/ExperimentationResults.cpp, src/ExperimentationResults.hpp;
--     record_measurement is the part of ProbeDataCollector::stop that fills them.
--   Probe, Probe/: src/Probe.cpp, src/Probe.hpp, src/ProbeV1.cpp, src/ProbeV2.cpp,
--     src/ProbeV2.hpp.
--   Loader, Loader/: src/ProbeLoader.cpp, src/ProbeLoader.hpp.
--   Collector, Collector/: src/ProbeDataCollector.cpp; Collector/Thread is updateThread.
--   Writer, Writer/: src/ExperimentationResultsWriter.cpp.
--   Text, Text/: the calls of std::string and std::istringstream in src/Options.cpp and
--     src/StringUtils.hpp, and strtok_r, on lists of bytes.
--   Options, Options/: src/Options.cpp, src/Options.hpp, src/ExperimentationFactory.cpp; settle is
--     the end of src/main.cpp.
--   Main, Main/: src/main.cpp, up to the creation of the experimentation.
--   KernelRunner, KernelRunner/: src/KernelRunner.cpp; a thread that calls evaluation and the
--     process that runs syncLoop take steps in any order, each a call of sem_post or sem_wait;
--     KernelRunner/Memory and KernelRunner/Flush are flushCaches.
--   ProgramRunner, ProgramRunner/: src/ProgramRunner.cpp; the threads that evaluation runs in and
--     their children take steps in any order, each a fork, a call of sem_post, sem_wait or
--     waitpid, or the end of a child, which may be killed at any time.
--   EnergyMsr, EnergyMsr/: probes/libenergymsr/libenergymsr.c; the updates between a start and a
--     stop are given by what they read.
--   Runner, Runner/: src/Runner.cpp, on the shared memories of the system.
--   TimerArm, TimerArm/: probes/libtimerarm/barrier.c, and the loop of measureThread in
--     probes/libtimerarm/threadFct.c.
--   EnergyServer, EnergyServer/: probes/libenergyserver; the server and any number of clients take
--     steps in any order; a call of sem_timedwait or sem_wait ends as a given outcome says.
--     EnergyServer/Setup is what both do before, EnergyServer/Msr puts EnergyMsr below the server.
--   PfmCounters, PfmCounters/: probes/pfmcounters/pfmcounters.c.
--   Yoko, Yoko/: probes/libenergyyoko; Yoko/Number is parse_float_str, Yoko/Energy is
--     libenergyyoko.c.
--   DaemonRunner, DaemonRunner/: src/DaemonRunner.cpp; the signals of each turn of the loop, up to
--     the pause that it is in, are given.
--   Experimentation, Experimentation/: src/Experimentation.cpp, src/DaemonExperimentation.cpp,
--     src/ProgramExperimentation.cpp and src/KernelExperimentation.cpp, which put the parts
--     together.
--   KernelCompiler, KernelCompiler/: src/KernelCompiler.cpp, src/Kernel.cpp.
--   Tests/: the theorems at concrete inputs.
--
-- Conventions:
--   A failed assertion, a read of a null pointer and an access outside of a vector end a
--   computation with `none`, or with `stopped` where exceptions are possible too. Unsigned
--   arithmetic that can wrap is written with % 2 ^ 32 or % 2 ^ 64. Loops over a range or a list
--   are structural recursion, so no fuel is needed; gcd recurses on the accessibility of its
--   smaller argument. A round of the collector thread is given by what it reads and whether its
--   sleep was interrupted (Tick).
--
-- The reading of numbers from a text runs on fuel, one more than its bytes; each round reads a
-- byte. flushCaches has fuel for two pages more than there are whole ones.
--
-- Parameters: what getopt_long finds on the command line; mkstemp, popen and dlsym; which threads
-- can be created; dlopen, which finds for a path the library or nothing; what stands behind the
-- symbols of a library; the sockets of the cores, the files of their registers and what these
-- give; libpfm, what inih finds in a file, and what a counter shows; what the serial port returns;
-- which calls on the shared memory succeed; the arrays that the probes return when they are
-- stopped, which are not null pointers; the arithmetic of doubles.
--
-- Not modelled: the calls of pthreads that create and block the collector thread, the call of a
-- kernel, the settings of priorities, the threads of libtimerarm, the libraries under probes/ that
-- read a clock or the files of the MIC, and the copy of inih there, the variants for Android, the
-- scripts, and the copies of the sources under src/Datas, src/Experimentation and src/Probes,
-- which are not built.
pub mod Common
pub mod Double
pub mod ProbeData
pub mod Probe
pub mod Loader
pub mod RunData
pub mod Results
pub mod Collector
pub mod Writer
pub mod Text
pub mod Options
pub mod Main
pub mod KernelRunner
pub mod DaemonRunner
pub mod ProgramRunner
pub mod EnergyMsr
pub mod KernelCompiler
pub mod Experimentation
pub mod Runner
pub mod TimerArm
pub mod EnergyServer
pub mod PfmCounters
pub mod Yoko
pub mod Tests
