-- ===== src/Lib.antt =====
-- Passmower: a verification library for the OIDC provider's own logic.
--
-- The program is a Kubernetes-native OpenID Connect provider. Accounts, clients and SCIM records are
-- custom resources; operators watch them and project clients into Redis; sign-ins are resolved to
-- accounts by stable identities and by e-mail addresses.
--
-- Prelude has the names that all modules share, the JavaScript array and Map methods over lists, and
-- the readings of `?.`, `??` and truthiness. Settings is process.env. Fixtures is test data.
--
-- Account, Access: models/account.js (state, approval, terms), conditions/approved.js,
-- utils/user/{account-type-access, check-account-groups, check-account-access, tos-required}.js and
-- the offer in utils/session/access-requests.js. A provider field that a resource lacks is the record
-- with nothing in it.
-- Ownership: utils/user/identity-integrity.js and the lookups of
-- services/kube-oidc-user-service.js. Evidence: getEmailVerifications, isEmailLinkable and
-- verifyEmail of models/account.js. Username: utils/username-source.js, utils/user/username.js and
-- its blacklist. Enrollment: createOrUpdateByEmails of models/account.js, which joins them.
--
-- Election: services/leader-election.js. A tick takes the answers of the API server as arguments and
-- returns the new state, the write that it asks for and the calls of onStartedLeading and
-- onStoppedLeading. Election.Race puts two pods on one lease, with the API server's optimistic
-- concurrency as the interface LeaseApi.
-- ClientSecret: #reconcileClientSecret and #adoptKubeSecret of
-- operators/kube-oidc-client-operator.js with the Secret calls of adapters/kubernetes.js. Reconciles
-- in flight are a list of phases; a move is one call of the API by one of them.
-- ClientOperator: the handlers of the same operator, as the effects that they have in order.
-- Sweep: services/client-redis-reconciler.js and the selector of
-- utils/kubernetes/namespace-filter.js. Conditions: models/client-activity-state.js.
-- Activity: services/activity-tracker.js.
-- RedisStore: class RedisAdapter of adapters/redis.js. Claims: utils/claim-mappings.js and
-- utils/protected-claims.js. Status: getIntendedStatus of models/account.js. Response: claims of
-- models/account.js with utils/fetch-extra-claims.js, which joins what Passmower computes, what the
-- webhook answers and what a client maps.
-- Session: services/session-service.js, over an interface of the Redis records of one model.
-- Users: services/kube-oidc-user-service.js, the condition EmailUnique, new users and passkeys.
-- ForwardAuth: utils/session/{base-domain, forward-auth-return, site-session}.js.
-- ScimLink: services/{scim-link-service, scim-directory-service}.js; the cluster is a list of subjects
-- and a log of what is written into accounts.
-- Discovery: utils/kubernetes/{ingress-oidc-client, resolve-ingress-ref}.js and
-- operators/kube-ingress-discovery-operator.js; a reconcile is the effects that it has in order.
-- EventHook: models/oidc-user-event-hook.js and operators/kube-oidc-user-event-hook-operator.js, whose
-- handlers are under way at once: a run is a list of reports and of answers to the calls of handlers.
-- Middleware: models/oidc-middleware-client.js and operators/kube-oidc-middleware-client-operator.js.
-- UserOperator: the shared passes of the e-mail check in operators/kube-oidc-user-operator.js.
-- Tally: utils/session/{access-requests, incident-log}.js. Validation: utils/session/validator.js.
-- Kube: adapters/kubernetes.js. Kube.Atomicity runs mutateNamespacedCustomObjectStatus against an API
-- server that keeps resource versions, the interface Server, with other writers between its calls.
-- Kube.Watching has the runs of the watch as a step relation: the requests, the timers and the calls
-- of an operator. Scim: services/scim-service.js, its users and the members of groups.
--
-- In Election.Race the server refuses a write by a conflict only, and in Kube.Watch the promise of a
-- request is not rejected. The status mutation counts its three attempts down. Every other loop is structural recursion over a
-- list that the code walks, so no fuel is needed; the events
-- of Election and the moves of ClientSecret are lists of any length. Times are milliseconds.
--
-- Parameters: EmailText (Unicode text functions and the validator package), Validator (the same
-- package), the verification mode of a provider, LeaseApi, Server and ScimLink's Api (the
-- answers of the API server), Web (URL and text), Crypto (the HMAC and the encoding of a state), Redis
-- (its commands) and Json (stringify
-- and parse), picomatch, and the answers of the Kubernetes API. Objects that the code compares by
-- reference are told by their resource name, which Kubernetes keeps unique. Redis lets no time pass:
-- what is stored is there until it is deleted.
--
-- Not modelled: HTTP routes, rendering, logging, mail and Slack delivery, the passkey protocol,
-- the oidc-provider library, and the operator of SCIM connections.
pub mod Prelude
pub mod Settings
pub mod Account
pub mod Access
pub mod Middleware
pub mod Ownership
pub mod UserOperator
pub mod Username
pub mod EventHook
pub mod Evidence
pub mod Enrollment
pub mod Fixtures
pub mod Election
pub mod Activity
pub mod Claims
pub mod RedisStore
pub mod Kube
pub mod Status
pub mod Response
pub mod Session
pub mod Users
pub mod ForwardAuth
pub mod ScimLink
pub mod Tally
pub mod Validation
pub mod Discovery
pub mod Conditions
pub mod Sweep
pub mod Scim
pub mod ClientSecret
pub mod ClientOperator
