-- ===== src/Lib.antt =====
-- mokey, a self-service portal for FreeIPA: models and proofs of the core of server/*.go.
--
-- The program. A browser talks to handlers (the methods of Router). They keep their own state in
-- one storage backend of keys with a time to live, and everything about users and groups in
-- FreeIPA, which they call through the client goipa: with the session of the user, or as an admin.
-- Signing in makes a session, which is listed for its owner; a password change leaves a marker
-- that ends older sessions; links in mails carry sealed tokens; requests to join or leave a group
-- wait in queues; OAuth clients are served through the server hydra; security events go to a ring
-- and from there to webhooks. What replicas of the program share is guarded by a lock on Redis.
--
-- The files.
-- Base.antt (Base/Tests.antt, Base/Lists.antt): tests, lists and the names that all others share.
-- Text.antt: texts as code points and bytes, for server/access.go, server/password.go and
--   server/phone.go.
-- Storage.antt: the storage backend (fiber.Storage) and the encoding of values (encoding/json), as
--   parameters; IsWorking is a backend that answers. Storage/Table.antt has those of the tests.
-- Directory.antt: the user record of goipa, answers and effects of handlers; memberOf of
--   server/ipa_access.go. Directory/Names.antt: what loops over names find.
-- Sessions.antt: server/sessions.go, the inventory of a user's sessions: recordUserSession,
--   userSessions, revokeUserSession, revokeOtherUserSessions, dropSessionFromIndex. Its folder has
--   a file for each operation, and Sessions/Invariant.antt for whole runs.
-- Requests.antt: the queues of server/group_requests.go and server/otprecovery.go, one generic
--   queue as the two files write it out twice.
-- Token.antt: server/token.go: NewToken, ParseToken, MarkTokenUsed.
-- Audit.antt: server/audit.go and incr of server/storelock.go; Audit/Ring.antt relates the storage
--   to the history, Audit/Read.antt the readers' loops to lists.
-- Groups.antt: the groups page of server/groups.go, and server/ipa_group.go; Groups/Handlers.antt
--   the handlers that join, leave, approve, deny and remove; clients of Requests.antt.
-- Access.antt: server/access.go and server/ipa_access.go.
-- Lockout.antt: server/lockout.go.
-- Auth.antt: isLoggedIn, sessionInvalidatedByPasswordChange and invalidateUserSessions of
--   server/auth.go; Auth/SignIn.antt its CheckUser, Authenticate and logout, a client of
--   Sessions.antt; Auth/Gate.antt its RequireLogin, RequireNoLogin and RequireMFA.
-- Hydra.antt: clientAllowed of server/hydra.go and server/hydra_consent.go; Hydra/Flow.antt the
--   consent, login and logout endpoints of server/hydra.go.
-- Password.antt: PasswordForgot and PasswordReset of server/password.go, a client of Token.antt and
--   Auth.antt; Password/Elsewhere.antt its usesFreeIPAPassword and passwordElsewhere;
--   Password/Policy.antt checkPassword, checkPwquality and the forms' checks, with
--   Password/Policy/Bytes.antt and Password/Policy/Runs.antt on longestRun,
--   Password/Policy/Classes.antt on the classes and Password/Policy/Accepts.antt on what passes;
--   Password/Once.antt what a used link is good for;
--   Password/Change.antt PasswordChange and PasswordExpired, clients of Auth/SignIn.antt.
-- Lock.antt: acquire, release and the script of server/storelock.go; Lock/Commands.antt the
--   commands of Redis that they send; Lock/Wait.antt how acquire ends; Lock/System.antt the callers
--   of hold on all replicas as a step relation, Lock/Sound.antt its invariant, and
--   Lock/Exclusion.antt what follows of it.
-- Security.antt: the tokens of server/otp.go; Security/Switch.antt its OTPTokenVerify, and the
--   switch of two-factor authentication in server/security.go.
-- Signup.antt: the names of server/usernames.go; Signup/Create.antt accountCreate and
--   stagedAccountCreate of server/account.go, Signup/Staged.antt and Signup/Added.antt what FreeIPA
--   is relied on for, and Signup/Inactive.antt what they leave there;
--   Signup/Verify.antt its AccountVerify, AccountVerifyResend and EmailChangeConfirm, clients of
--   Token.antt; Signup/Settings.antt its AccountSettings and UsernameForgot of server/usernames.go.
--   Signup/Directory.antt is a directory for the tests.
-- Phone.antt: splitPhone and joinPhone of server/phone.go.
-- Expiry.antt: the reminders of server/expiry.go, Expiry/Markers.antt their markers.
-- Webhooks.antt: the queues and deliveries of server/webhooks.go.
-- Each folder's Tests.antt has runs and the theorems at concrete inputs.
--
-- How code becomes definitions. A function or handler is a definition of its name in snake case;
-- a handler takes the state and gives it back with its answer (a status with the key of its text,
-- a page, a redirect) and, where it sets off mails, jobs or lines of the audit trail, its effects
-- in order. An error that the code only logs leaves no trace here. An operation reads the clock
-- once, but password_change twice: for the marker, and later for the session that is kept. So a
-- call to Redis takes no time in Lock.antt, where the deadline is compared after it; times are in
-- seconds, in Lock.antt in milliseconds. An operation that holds the lock of its key is one step.
-- Where the code goes on after it could not take the lock, that is not so: the models of the
-- operations leave this out. A panic is a value of its own. goipa, Redis, net/mail, hydra,
-- branca, the session middleware, Unicode's tables and the encoding are parameters; what is
-- relied on of them is a hypothesis (IsWorking, IsSealing, IsRedis, IsAdding, IsDisabling, the
-- round trip of Codec).
--
-- Bounds and fuel. The ring has 1000 slots, so a slot's number has at most three digits and
-- decimal_fuel 4 writes it out. acquire waits six seconds with growing sleeps of at least 2 and at
-- most 20 milliseconds: 304 turns are enough. A delivery of a webhook makes at most three attempts.
-- Counters and times are naturals: an int64 is not exhausted in practice. The pages of consents that
-- hydra lists are read with fuel, since the code does not bound their number; Hydra/Consents.antt is
-- about pages that come to an end.
--
-- Not modelled: passkeys, the admin and helpdesk pages, invitations, the handlers of lost tokens, SSH
-- keys, sub-ids, the API, the captcha, the lookup of breached passwords and the mutex that guards a
-- key without Redis; the picker of countries, the posting and signing of webhooks and the text of
-- durations; and mails, templates, translations, routes, TLS, logging and metrics, which are input
-- and output.
pub mod Base
pub mod Text
pub mod Access
pub mod Lock
pub mod Lockout
pub mod Auth
pub mod Hydra
pub mod Security
pub mod Signup
pub mod Phone
pub mod Expiry
pub mod Webhooks
pub mod Password
pub mod Storage
pub mod Sessions
pub mod Requests
pub mod Token
pub mod Audit
pub mod Directory
pub mod Groups
