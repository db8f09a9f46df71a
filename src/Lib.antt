-- ===== src/Lib.antt =====
-- A model of the UptimeRobot operator for Kubernetes, and theorems about it.
--
-- The operator watches custom resources (Account, Contact, Monitor, MaintenanceWindow, MonitorGroup,
-- SlackIntegration) and makes the UptimeRobot service agree with them over its v3 REST API. A
-- reconciler reads a resource, calls the API through a client that retries transient failures, and
-- writes what came of it into the status conditions of the resource; a deletion goes through a
-- finalizer that first cleans up on the side of UptimeRobot.
--
-- The files, and the code that each is about:
--   Retry          internal/uptimerobot/retry.go. Retry.Delay has parseRetryAfter and
--                  calculateBackoff, Retry.Attempts the loop of doWithRetry.
--   Request        the builders of internal/uptimerobot/client.go (buildCreateMonitorRequest,
--                  buildUpdateMonitorRequest, contactsToV3Format) and the request types of v3types.go.
--   Duplicate      selectDuplicateMonitorCandidate and the searches by name and URL of client.go.
--   Api            the calls of client.go: Api.Transport has newRequest, doJSON and doGetJSON,
--                  Api.Listing listAllMonitors, Api.Monitors GetMonitor, FindMonitorID,
--                  DeleteMonitor and the pause and start calls, Api.Create CreateMonitor and EditMonitor;
--                  Api.Windows, Api.Groups, Api.Integrations and Api.Account the other calls, and
--                  Api.Wire their requests and responses.
--   Urtypes        internal/uptimerobot/urtypes: the enumerations and their API texts; Urtypes.Enumer has
--                  the methods that the files *_enumer.go have alike, and their tables.
--   Monitor        api/v1alpha1/monitor_types.go: the fields that requests are built from;
--                  Monitor.Resource has the resource with its status.
--   Conditions     internal/controller/conditions.go: SetCondition and its wrappers.
--   Finalizer      internal/controller/finalizer.go: Finalizer.Cleanup has HandleFinalizerCleanup,
--                  Finalizer.Backoff its delay, Finalizer.Tracking InitializeCleanupTracking.
--   Reconcile      internal/controller/monitor_controller.go. Reconcile.Session has what a reconcile
--                  runs on, Reconcile.Status updateMonitorStatus, Reconcile.Deletion and
--                  Reconcile.Adopters the branch of a deletion, Reconcile.Steps the contacts and
--                  credentials, Reconcile.Adopt the adoption and the creation, Reconcile.Sync the
--                  update, Reconcile.Publish the published heartbeat URL, Reconcile.Main the whole.
--                  Reconcile.Access has GetAccount and GetApiKey of account_controller.go and
--                  GetContact of contact_controller.go.
--   Controller     what the controllers of maintenance windows, monitor groups and Slack integrations
--                  share, in internal/controller: Controller.Session what a reconcile runs on,
--                  Controller.Status the writes and the conditions, Controller.Steps the credentials,
--                  the finalizer and the references to monitors, Controller.Deletion the deletion,
--                  Controller.Watches what is reconciled where a Monitor changes.
--   Windows        maintenancewindow_controller.go with api/v1alpha1/maintenancewindow_types.go:
--                  Windows.Duration has the minutes, Windows.Resource the requests, Windows.Main
--                  Reconcile.
--   Groups         monitorgroup_controller.go with api/v1alpha1/monitorgroup_types.go.
--   Slack          slackintegration_controller.go with api/v1alpha1/slackintegration_types.go:
--                  Slack.Resource has what is wanted of an integration, Slack.Status
--                  updateSlackIntegrationStatus and recreateSlackIntegration, Slack.Main Reconcile.
--   Accounts       Reconcile and mapSecretToAccounts of account_controller.go.
--   Contacts       Reconcile of contact_controller.go.
--   Ingress        ingress_controller.go: Ingress.Annotations has getMatchingAnnotations,
--                  Ingress.Values updateValues, Ingress.Main findMonitors and Reconcile.
--   Admission      api/v1alpha1/account_webhook.go and contact_webhook.go.
--   Heartbeat      the heartbeat URLs of internal/controller/monitor_controller.go.
--   TestServer     internal/uptimerobot/uptimerobottest/server.go, which the tests of the code run on.
--   Failure        Go's error values; IsNotFound of client.go.
--   Strconv, Text  what the code uses of the packages strconv, strings and fmt.
--   Prelude        names, tests and numbers that the other files share.
--   Tests          runs on concrete inputs, and the theorems at inputs that meet their hypotheses.
-- A file named Laws, or one whose name ends in Laws, holds the theorems about its parent.
--
-- How the code is modelled. A Go function is a function of the same name in snake case; a struct is a
-- record, and a pointer or an optional value an Option. A nil slice and an empty one are both the
-- empty list. A text is a sequence of code points. An error is a record of its message and of the
-- sentinels that it wraps, which is all that the code reads of one. A call that talks to the world
-- takes the world and returns the new one, so that the order of calls is the order of the code. The
-- reconciler is a chain of actions on a session, the world and the Monitor that it holds, and an early
-- return of the code is an action that exits; a successful write replaces the Monitor by what the
-- server stored, as the client does.
-- The resources of the other controllers are an object with a specification and a status of its kind,
-- which holds the fields that the kinds have in common and a record of the others.
-- Durations are 64-bit nanoseconds as integers; where the code multiplies one that may overflow, the
-- wrap-around is written out.
--
-- What stands outside the repository is an argument: the network, the clock, the random source, the
-- JSON codec, the time formats of the package time, net/http's date parser, the Kubernetes client, the
-- decoder of mapstructure that an Ingress is read with, and URL.String of net/url.
-- A theorem that relies on one of them says so in its hypotheses.
--
-- Bounds. The loop of doWithRetry runs for maxRetries + 1 rounds, the number that the code allows,
-- and every run of it returns. The loop of listAllMonitors has no bound in the code; it runs on fuel
-- of one unit for each link followed, and the fuel that is enough is the number of links of the
-- server; a reconcile that is still following links is an ending of its own. The digits of a number
-- are produced in as many rounds as the number is large, and one more, which is enough since each
-- round divides by ten.
--
-- The rounding of Minutes() in a maintenance window is written out: the binary digits of the whole
-- minutes are counted in 27 rounds, and the largest duration has fewer than 2 ^ 28 minutes.
--
-- Abstractions. The floating point numbers of calculateBackoff are an interface of operations. The
-- elapsed part of the timeout in HandleFinalizerCleanup is an exact quotient, and Seconds() of a
-- duration is truncated exactly; both differ from the floating point code only by its rounding.
-- Log lines are left out, as no code reads them.
--
-- Not modelled: the rest of SetupWithManager of the controllers and the registration of the webhooks, which
-- wire watches and indexes into the manager; of these, the indexes of Monitors by their source and of
-- maintenance windows and monitor groups by their monitors are modelled, and the functions that map a
-- change of a Secret or of a Monitor to requests. Not modelled either: the generated deep copies, which
-- a model without sharing has no use for, and the flags and the wiring of the manager in cmd/main.go.
pub mod Prelude
pub mod Text
pub mod Failure
pub mod Strconv
pub mod Conditions
pub mod Retry
pub mod Finalizer
pub mod Urtypes
pub mod Monitor
pub mod Request
pub mod Duplicate
pub mod Heartbeat
pub mod Api
pub mod Reconcile
pub mod Controller
pub mod Windows
pub mod Groups
pub mod Slack
pub mod Accounts
pub mod Contacts
pub mod Ingress
pub mod Admission
pub mod TestServer
pub mod Tests
