-- ===== src/Lib.antt =====
-- Verification of the panel's core: the life of a user, the devices, the BS limit, the addresses and
-- documents that a subscription hands out, the cascades of nodes, and the notifications.
--
-- The source is a FastAPI service over a relational database. Modelled are the operations of
-- app/db/crud.py that keep the state of users, devices, bought traffic, pins and snapshots, the periodic
-- jobs over them, and the pure modules that those and the subscription share. Tables are lists of
-- records, an operation takes the tables it reads and returns those it changes, exceptions are
-- `Prelude.Raises.Result`, and calls of other systems (xray cores, reports) are lists of events. A job
-- gets the current moment, day or month as an argument, which the source reads from the clock.
--
-- Users, Users/Reset, Users/Status: app/db/models.py (User and its tables), app/db/crud.py
--   (reset_user_data_usage, reset_user_by_next, reset_all_users_data_usage, update_user_status,
--   start_user_expire, disable_all_active_users, activate_all_disabled_users).
-- Users/Periodic: app/jobs/reset_user_data_usage.py, over the reset of Users/Reset. Users/Autodelete:
--   autodelete_expired_users of app/db/crud.py and app/jobs/remove_expired_users.py. Users/Modify: update_user of
--   app/db/crud.py but for the proxies, over the pool of Bs/Pool. Users/Usage: record_user_usages of
--   app/jobs/record_usages.py as far as the users and administrators.
-- Review, Review/Job, Review/Batches: app/jobs/review_users.py. The review calls the resets and the
--   changes of status above.
-- Devices: app/db/crud.py (register_user_device and the functions it uses, revoke_user_device),
--   app/subscription/device_ua.py. Rows that another transaction commits in between are an argument.
-- Bs: app/xray/bs_limit.py. Bs/Pool: the pool of bought traffic in app/db/crud.py. Bs/Nodes:
--   app/jobs/review_bs_nodes.py, which blocks users whom Bs/Pool shows as exhausted. Bs/Record:
--   app/jobs/record_usages.py (record_bs_user_stats, record_bot_bs_daily), which writes the counters.
-- Addresses/Policy, Addresses/Epoch: app/xray/address_policy.py. Addresses/Context:
--   app/subscription/address_context.py. Addresses/Hosts: app/xray/host_addresses.py. Addresses/Pins:
--   the pins of app/db/crud.py, which Addresses/Context takes. Addresses/Archive:
--   app/jobs/snapshot_host_composition.py and its tables, over Addresses/Hosts.
-- Addresses/Weights, Addresses/Journal: the snapshots of weights in app/db/crud.py and the journal of
--   app/services/address_history.py, which tells a past day by the choice of Addresses/Context.
-- Xray: the document of a core (a dict in the source). Xray/Cascade: app/xray/cascade_config.py.
--   Xray/Inbounds: app/xray/inbound_filter.py and strip_blocked_clients of app/xray/bs_limit.py.
--   Xray/HostBalancer: app/xray/host_balancer.py. Xray/ClientConfigs: app/xray/client_configs.py.
--   Xray/TagGraph: validate_composed_tag_graph of app/xray/host_injection.py. Xray/Injection: the rest of that
--   module but diagnose_injection, and app/models/host_injection.py. Xray/Injection/Compose:
--   compose_endpoints of app/subscription/host_candidates.py, app/subscription/bs_context.py.
-- Notifications: app/jobs/send_notifications.py.
-- Examples: concrete runs. Prelude: shared names and the lemmas on tests, lists, dicts, integers, texts,
--   results and sorting.
--
-- Parameters: floating-point numbers and the hash blake2b are the record `Addresses.Numerics`; where a
-- theorem needs it, that the comparison of the scores is total and transitive, which holds for numbers
-- that are not NaN. int(value * consumption_factor) is the function `charge`. Numbers of the database
-- are unbounded: byte counts stay far below 2 ^ 63. Months are the numbers YYYYMM, which compare as the
-- keys 'YYYY-MM' do. Readings of the clock within a job are a function of their number, the library
-- `regex`, the webhooks and json.loads are functions that answer, in Xray/Injection, Notifications and
-- Xray/ClientConfigs; `Users.Modify.Moment` is the clock with the local time zone and the floating-point
-- percents, `Review.Webhook` tells which ends are dates. The reports and the conversion of a user for them do not fail,
-- nor do the commits; numbers fit the columns of the database.
--
-- Fuel: `Review.Batches.batches` runs on the length of its list, and its theorem shows that this is
-- enough; `Notifications.drain` runs on a number of rounds, and its theorems say when they are enough and
-- when none are; `Addresses.Texts.show_ℕ` has fuel for 21 digits, more than a 64-bit number has. All else is
-- structural recursion.
--
-- Not modelled: the retries and failures of commits, the wording of logs and reports, the xray cores and
-- their gRPC client, the formats of subscriptions, the routers, the bots and the dashboard; of
-- app/db/crud.py the creation of users, their proxies, administrators, bots, templates and nodes; the assembly
-- of the journal's scope out of the tables.
mod Prelude
pub mod Users
pub mod Review
pub mod Devices
pub mod Bs
pub mod Addresses
pub mod Xray
pub mod Notifications
pub mod Examples
