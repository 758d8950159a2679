-- ===== src/Lib.antt =====
-- A verification library for the core of kinova-gen3-driver: the driver-side logic that decides who
-- may command a Kinova Gen3 arm, what it is told to do, and when it must stop.
--
-- Parts and files (C++ paths from the repository's root):
--   Types               the value types and enums (include/kinova_lowlevel/interface/value_types.h,
--                       trajectory_executor.h, joint_types.h, gripper_types.h, arm_link.h)
--   Ports               the three sinks of interface/ports.h as one record of operations
--   Arbiter             src/interface/arbiter.cpp: ownership, tokens, the e-stop. Arbiter/Admission puts
--                       the gated methods under one theorem; Arbiter/Ownership and Arbiter/Estop run
--                       any sequence of calls
--   Supervisor          src/interface/supervisor.cpp: the state that its threads share.
--                       Supervisor/Streams and Supervisor/Handlers are the handlers,
--                       Supervisor/Sampler an iteration of `sampler_loop` in the stretches between
--                       which another thread may run, Supervisor/System the transition system.
--                       Settlement, Ledger and Schedule count goals and results; Frame and Halting
--                       follow a halt; Floor, Safety and Applied follow the gains
--   Executor            src/interface/trajectory_executor.cpp: sampling, submitting and ticking
--   Session             src/interface/streaming_session.cpp
--   Gains, Contact      src/interface/gains.cpp, src/interface/contact.cpp
--   Monitor             src/contact_monitor.cpp and src/momentum_observer.cpp
--   Watchdog, Gripper   include/kinova_lowlevel/command_watchdog.h, src/gripper_controller.cpp
--   ArmLink             src/arm_link.cpp: the lifecycle of the link as a step machine. ArmLink/Clears
--                       and Requests count its calls, Status follows what it reports, Recovery how it
--                       loses the arm and gets it back
--   RtExecutor          src/rt_executor.cpp: the state of the real-time loop over any control modes and
--                       its counters of misses; RtExecutor/Steps are the steps of a cycle, and
--                       RtExecutor/Running a run with the other threads. RtExecutor/CommsLoss is about
--                       its counters of misses, Trace about the order in which it calls the modes,
--                       Latched about the contact latch, Missed about a cycle without an answer
--   Telemetry           src/telemetry.cpp: the ring of samples; Telemetry/Ring is the queue that it is.
--                       Telemetry/Histogram is src/telemetry_consumers.cpp, and Histogram/Percentile
--                       is about its percentiles
--   FeedbackTap         include/kinova_lowlevel/feedback_tap.h: the sequence lock, word by word
--   Modes               src/joint_torque_mode.cpp, joint_velocity_mode.cpp, joint_position_mode.cpp,
--                       joint_impedance_mode.cpp, cartesian_impedance_mode.cpp and float_mode.cpp, a
--                       file each; JointVelocity/Frozen runs any sequence of calls
--   Kortex              src/kortex_transport.cpp and src/kortex_cyclic.h: the transport to a real arm.
--                       Kortex/Wire is `exchange`, `send`, `receive` and `set_servoing_low_level`,
--                       Kortex/Lifecycle `connect`, `release_low_level`, `safe_shutdown`,
--                       `arm_in_fault` and `clear_faults`, Kortex/Switching `set_actuator_modes`.
--                       Holding and Order are about the switch of the modes, Reverting, ShuttingDown
--                       and Connecting about the lifecycle, Gripping about the gripper message.
--                       Kortex/Route is src/arm_route.cpp
--   Transport           include/kinova_lowlevel/transport.h and its two decorators, FeedbackTap and
--                       GripperController; Transport/Decorated is about them, Transport/Sim is
--                       src/sim_transport.cpp and Sim/Reports about what it reports
--   Teleop              include/kinova_lowlevel/teleop_protocol.h: the packets and their bytes;
--                       Teleop/Layout and Teleop/RoundTrip are about them. Teleop/Server is the receiving thread of
--                       apps/teleop_socket_server.cpp, Teleop/Answers what it does with a packet
--   Units, VelocityReference   include/kinova_lowlevel/units.h and velocity_reference.h
--   Prelude, Double     shared names, Boolean tests, lists, sorting; floating point as a parameter
--   Tests               concrete data and examples
--
-- A backend calls the ports. The arbiter stands in front: each gated call carries a token and is
-- delegated or refused. Behind it the supervisor accepts goals into an inbox, which its sampler
-- thread drains into the executor, and serves streaming sessions directly; a halt marks the inbox and
-- is taken by the sampler. The contact monitor runs in the real-time loop and latches; the supervisor
-- turns the latch into a halt.
--
-- Numbers: floating point is a record of operations (Double) about which nothing is assumed, except
-- in theorems that take IsOrdered, the laws of comparison; Nano is an instance with concrete values.
-- Single precision is the same type, the rounding to it an operation (to_float).
-- A 64-bit counter wraps (u64). A handler that runs under a mutex is one step; a handler that sleeps
-- (a mode settle) is two; the sampler's last look at a halt and the submission after it are two as well,
-- while on_halt and ArmLink's set_state, which take a lock and then do more, are one. A call of a mode, of the real-time executor or of the action server is an
-- entry of the supervisor's `calls`.
--
-- Fuel: the loops of wrap_to_pi run on fuel; Units says for which angles and fuel they end by their
-- tests (the source's own loops do not end on an infinite angle). The loop of
-- round_up_pow2 runs on 63 doublings, which are enough up to 2^63. The loops of a thread run over a list
-- of events; all others over the seven joints, a list of waypoints or the inbox.
--
-- The link to the arm runs the real-time loop, which ends by an exception that the link handles: the
-- link's steps take what the loop throws as an answer. The loop takes the control modes as operations
-- on a state (RtExecutor.Modes) and steps the contact monitor. A transport is a record of operations
-- on a state, which `kortex` and `sim` fill and the decorators wrap.
--
-- The vendor library KORTEX is a parameter (Kortex.Sdk): what it answers to each request and each
-- cyclic frame, as a function of a state of its own, with nothing assumed. The objects that the driver
-- holds of it are flags. A method of the transport is a computation that keeps what it changed when it
-- throws; `calls` logs the requests and frames with their endings.
--
-- Not modelled: pump_loop (publishing through the rigid-body model), the inverse kinematics
-- (src/diff_ik.cpp) and the rigid-body model (src/dynamics.cpp, src/cartesian.cpp), which are parameters
-- of their clients, src/rt_system.cpp (system calls), src/contact_replay.cpp (an offline tool), the
-- text that the telemetry consumers print, the command lines, sockets and checks of the applications,
-- and tests, tools and models. What the clock reads is a parameter. The window in which
-- `Arbiter::estop` latches ahead of its lock is not modelled, nor is the memory order of the atomics,
-- except that FeedbackTap takes the accesses of the sequence lock in the order of its fences. The
-- threads' scheduling and their sleeps are left out.
pub mod Prelude
pub mod Double
pub mod Types
pub mod Ports
pub mod Arbiter
pub mod Session
pub mod Watchdog
pub mod Gripper
pub mod Gains
pub mod Contact
pub mod Monitor
pub mod Units
pub mod Executor
pub mod VelocityReference
pub mod Supervisor
pub mod Tests
pub mod ArmLink
pub mod RtExecutor
pub mod Telemetry
pub mod Modes
pub mod FeedbackTap
pub mod Kortex
pub mod Teleop
pub mod Transport
