-- ===== src/Lib.antt =====
-- The bridge service of HWcontrol (bridge_service/), which the dashboard asks for sensor readings and
-- for changes of fan speed, power profile and game mode, over a local socket, in signed lines of JSON.
--
-- A connection reads a line (readBoundedRequest), decodes it to a Command, validates it, checks its
-- HMAC and its nonce, then panic mode and the rate limit, and hands it to a handler. A response
-- carries the nonce of its request, which is empty where the request was not decoded. Signatures of
-- responses are modelled apart from the connection, and a refused connection gets an unsigned line.
-- Fan commands pass the thermal guards over a fresh reading before they write a PWM duty. A canary
-- file and a monitor of file digests switch control off when the installation is touched. Health and
-- the Healthy Core index grade what the sensors report.
--
-- The model is of the Linux build. A function of the source keeps its name in snake case.
--   Base, Int, Text, Float   shared helpers; Go's int, strings, paths, hex, base64, decimal and float64
--   Files                    what os.Lstat and os.ReadFile show of a file
--   Telemetry                HardwareMetrics (the fields used) and the tests of health.go
--   Command                  Command, commandPayload, signCommand, authenticateCommand (bridge_service/src/main.go)
--     Strict                 rejectAmbiguousCommandJSON, decodeCommandStrict
--     Validate               validateCommand
--     Signed                 signed commands and their check
--     Replay, Window         consumeCommandNonce, alone and together with the timestamp's window
--   Response                 responsePayload, signResponse, authenticateResponse (bridge_service/src/main.go)
--   Fan                      bridge_service/src/fan_control.go and bridge_service/src/fan_control_linux.go; Configured
--                            is the configured paths, Discover the discovery of targets; Found and Manual are about it
--   Collect                  collectHardwareControlSafetyMetrics (bridge_service/src/main.go) and
--                            bridge_service/src/platform_metrics_linux.go; Control is the collection,
--                            Sound, Hottest, Last and Guarded are about it
--   Thermal                  the guards of fan commands (bridge_service/src/main.go)
--   Audio                    the start request of the audio studio (bridge_service/src/main.go); Probe is its device
--                            lists, Listed about them; Session is audioProbeControl and the start line, Alternates and
--                            StartLine about them
--   Power, Power/Linux       bridge_service/src/power_mode.go and bridge_service/src/power_mode_linux.go
--   Game                     bridge_service/src/game_mode.go
--   Execute                  executeHardwareCommand (bridge_service/src/main.go)
--   Connection               handleConnection (bridge_service/src/main.go); Read is readBoundedRequest, Dispatch the handlers;
--                            Gate, Replies and Writes are about one turn of its loop
--   Health                   bridge_service/src/health.go; Severity, Status and Cooling are about it
--   History                  bridge_service/src/sensor_history.go
--   HealthyCore              bridge_service/healthycore/assessment.go
--   Security                 bridge_service/src/fetch_status_service.go; Integrity is bridge_service/src/integrity_monitor.go,
--                            its Start the set-up, Latch and Fresh about its ticks
--   Verify                   bridge_service/src/verify_integrity.go; State is the state file, Key is
--                            bridge_service/src/verify_key_windows.go; Records, Arrival, Baseline and Authentic are about them
--   Secrets                  loadOrCreateSecret (bridge_service/src/main.go)
--   Runtime                  bridge_service/src/bridge_runtime.go; Steps is its interleavings, Stopped
--                            about what follows a stop
--   Listener                 bridge_service/src/bridge_listener_unix.go and bridgePort (bridge_service/src/main.go);
--                            Private is about it
--   Guardian                 bridge_service/security_guardian/main.go
--   Storage                  bridge_service/src/storage.go; Volumes is the collection, Mounts about it; Health and Cache are
--                            bridge_service/src/storage_health.go, Bounded and Queries about them
--   Audit                    security/local-audit/main.go; Report is its command, Pinned and Accepted are about it
--   Examples                 concrete inputs
--
-- Numbers. A float64 is not-a-number, an infinity, or a sign and a magnitude in units of 2^-1074;
-- operations round to nearest, ties to even. `round_fuel` is 6400, more than the halvings that bring any
-- product or quotient of two float64 values to 53 bits. An int is an integer, wrapped at 64 bits where
-- the source computes with it. A time is in nanoseconds since the epoch.
--
-- Parameters. HMAC-SHA256 is any function with 32-byte results, sort.Slice any function that gives
-- an ascending rearrangement. SHA-256, decoding of JSON, strconv.Unquote, strconv.ParseFloat,
-- strings.ToLower, strings.EqualFold, strings.ToValidUTF8, DPAPI and the power daemon are
-- parameters. What a step reads from outside (clock, files, sensors, the discovered fans, write
-- errors) is an observation of that step, so that two readings need not agree. Locks are not
-- modelled: each locked function is one step. readStorageHealth releases its lock while smartctl
-- runs: a collection of volumes takes a call of it as one step, Storage/Queries its two locked
-- sections as steps among those of other calls.
--
-- Not modelled: the metrics that only the dashboard shows, Windows services, battery, redaction, diagnostics, hardware
-- identity, the other platforms, and the programs in other languages.
pub mod Base
pub mod Int
pub mod Text
pub mod Files
pub mod Float
pub mod Telemetry
pub mod Command
pub mod Fan
pub mod Thermal
pub mod Guardian
pub mod Audit
pub mod Storage
pub mod Listener
pub mod Runtime
pub mod Secrets
pub mod Collect
pub mod Verify
pub mod Audio
pub mod Power
pub mod Game
pub mod Execute
pub mod Health
pub mod History
pub mod HealthyCore
pub mod Security
pub mod Response
pub mod Connection
mod Examples
