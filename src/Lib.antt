-- ===== src/Lib.antt =====
-- EasyServer, a panel to manage a server: a verification library of the services that decide who
-- may do what, and of the machinery that other services stand on.
--
-- The program's parts and the files that model them. Paths are from the root of the repository.
-- Auth: internal/domain/auth. A login by password (service.go, Account.antt) leads to a session
-- (session.go, Session.antt) and, on a phone, to a refresh token (refresh.go, Refresh.antt). A
-- second factor is guarded by a limiter (verify_limiter.go, VerifyLimiter.antt). A phone that is
-- logged in can log a browser in by its code (service_qrlogin.go, QrLogin.antt), which adds a
-- session to the same table. User.antt is the row of a user.
-- Middleware: internal/httpx/middleware/ratelimit.go, the token bucket of each address.
-- Infra: internal/infra/task/manager.go, background tasks (Task/Manager.antt) and their logs
-- (Task/Log.antt). Task/Manager/Run.antt has the goroutine of a task as one atomic action after
-- the other, interleaved in any way with those of other tasks and with the calls of the manager.
-- logger/flood.go is the guard against floods of log lines (Logger/Flood.antt). config/config.go and
-- config/validate.go load and check the configuration (Config.antt).
-- Plugin: internal/plugin/events.go, the event bus (EventBus.antt) and the delivery of an event
-- with retries (Delivery.antt); internal/plugin/supervisor.go, the processes of plugins
-- (Supervisor.antt), where each call, timer and goroutine is a step of its own; with starts that
-- overlap, in two steps each, in Supervisor/Interleaved.antt.
-- Database: internal/domain/database/validation.go, the gate for SQL that a user enters
-- (Statements.antt for the scan, Gate.antt for the rules), over bytes; sql_builder.go, how values and
-- names are quoted (Literals.antt).
-- Firewall: internal/domain/firewall/port_acl.go, who may reach a port (PortAcl.antt), over an
-- interface of the commands of nft.
-- Util: internal/util/path.go, paths that stay within a directory (Path.antt), over the operations of
-- path/filepath (Filepath.antt).
-- Web: internal/domain/web/security/service.go, the bans of addresses (Bans.antt), over an interface
-- of the firewall.
-- Alert: internal/domain/alert/service.go, the rules on what is monitored (Rules.antt).
-- Base: maps, lists and texts as Go has them, the kinds of errors of internal/infra/errx, and the
-- lemmas about them. Go's maps are association lists whose order is that of iteration.
--
-- How code is modelled. A function that changes a structure takes it as its last argument and
-- returns it anew; an error is a value beside it. What a mutex guards is one step. Parameters stand
-- for what is not in the repository: the clock, random strings, bcrypt (`matches`, `hashed`), the
-- signing of web tokens, the hash of refresh tokens, the TOML library, what package net reads
-- (`parses`), certificates, the outcome of an SQL statement (`fails`), and the floating-point share
-- of tokens (`scale`, of which `IsScale` says that it is not rounded up over the exact share). Theorems that rely on such a parameter name the property as a hypothesis.
--
-- Bounds and fuel. The stripping of comments runs on fuel, one more than the length of the text, of
-- which each round removes two bytes at least. Other loops recurse on their data. Counters are not
-- bounded to the width of Go's integers: they count attempts, slots and bytes of texts in memory.
--
-- Not modelled: the handlers, the parts that call the system or other programs, the front end, the
-- plugins; within the parts above, the named registry of rate limiters, TOTP and backup codes, the
-- change of a user's name, the rules on the names of databases, the statements that are built from
-- quoted names and values, the rules of alerts in the configuration, the settings of web sites, and
-- queries that compare times within SQL. Concurrent requests are modelled for tasks and for starts of plugins only.
pub mod Base
pub mod Auth
pub mod Middleware
pub mod Infra
pub mod Plugin
pub mod Database
pub mod Alert
pub mod Util
pub mod Firewall
pub mod Web
