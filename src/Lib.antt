-- ===== src/Lib.antt =====
-- xcplane, modelled and verified: a control plane that provisions a cloud of proxy servers from a
-- declarative configuration, monitors them, and reconciles them with a changed configuration.
--
-- The parts, with their sources:
--   * Naming: the rules for names and subdomains and the suggestion of a name (src/types.rs).
--   * Ip: the check that an address is global (`is_global`, src/cloud.rs).
--   * Server: the records of a cloud and what is computed from a server (src/types.rs,
--     src/cloud/server.rs, src/ansible.rs, src/cloudflare.rs).
--   * Config: `parse_cloud_config` (src/cloud.rs), from the deserialized file on. Its steps are
--     in Config/Steps.
--   * Actions: `AnsibleAction`, its order of priority, its task files (src/ansible.rs).
--   * Cloudflare: the choice of a zone and the Cloudflare state of a server (src/cloudflare.rs),
--     with fixed answers of the service; Cloudflare/Account has the calls that change the account
--     (the ruleset, the rule and the block list that are got or created), with its state.
--   * Reconcile: `reconcile_cloud` and what it calls (src/cloud/reconcile.rs): Merge for
--     `reload_merge`, `remap_merge`, `rebase_merge`; RebaseData for `create_rebase_data`; Deploy
--     for `deploy_rebase`; Cloud for the function as a whole.
--   * Monitor: `handle_response` and `super_xray_actions` (src/cloud/service.rs), a step on the
--     registry `action_map`; Monitor/Response has the function as a whole; Monitor/Loop the loop
--     of a monitor (`run_svc_monitor`), a relation of steps.
--   * Database: the tables, `update_db`, `load_cloud`, the marks of a server and the status data
--     (src/db.rs), and `run_aggregator` (src/cloud/service.rs).
--   * Panel: the session that the calls of a panel share (src/xui/api.rs), a relation of steps,
--     and the backups of the panels (src/xui/db.rs).
--   * Playbook: what a run of the playbook is given (`write_ansible_vars`, src/ansible.rs).
--   * Firewall: the nftables sets, their rules and files, and the GeoIP tables (src/nft.rs).
--   * Daemon: the registry of tasks with `expand_cloud` (src/cloud.rs),
--     `perform_server_destruction` and the inquiry in Daemon/Tasks; `check_and_backup`, the exit
--     codes, the start of a cycle and the sequences of cycles in Daemon/Next; the monitors that a
--     cycle starts in Daemon/Monitors; the ends of `full_setup` and `destroy_server`
--     (src/ansible.rs) in Daemon/Operations; the answers in Daemon/Reports (src/daemon.rs,
--     src/daemon/core.rs).
-- Common has the shared types, tests and lemmas; Examples applies the theorems to concrete
-- clouds.
--
-- How they interact: Config gives a new cloud, Reconcile merges it with the old one, server by
-- server, sets the Cloudflare states, and in a Rebase runs the actions that the differences call
-- for, with the data that was computed from both clouds. Daemon starts a cycle: it loads the old
-- cloud from Database, reconciles and stores it again, and picks the server of a full setup,
-- which Database marks as a production unit when it is done.
--
-- How the model corresponds to the code: a function has its source's name and branches; a
-- `Result` is an `Outcome` with a data type of errors; a `HashSet` is a list with a membership
-- test, a `HashMap` an association list. The order in which a hash table is walked is an
-- argument, so a theorem holds for every order. What runs elsewhere is an argument too: the
-- random texts and the digest of secrets, `Url::parse`, the answers of Cloudflare (their
-- documented behaviour is the record `IsDocumented`, for which Examples/Accounts has an account
-- in memory), the runs of playbooks and the order in which they end. State that a function
-- changes (the sets of a loop, data directories, the Cloudflare list, the connection of a server)
-- is passed explicitly. All loops go over a list, so there is no fuel. Numbers are unbounded
-- where the source only compares or copies them; an address is below 2 ^ 32 or 2 ^ 128 by
-- hypothesis.
--
-- A table of the database is a list of rows under their key; the statements of a call are not one
-- transaction, so an error keeps what was written. The commands of a cycle are a sequence of
-- changes.
--
-- Not modelled: serialization, logging, the terminal interface, HTTP and SSH connections, the
-- parser and the errors of SQL, the playbooks, the checks of a service and the start of the
-- program.
pub mod Common
pub mod Naming
pub mod Ip
pub mod Server
pub mod Config
pub mod Actions
pub mod Cloudflare
pub mod Reconcile
pub mod Monitor
pub mod Database
pub mod Firewall
pub mod Panel
pub mod Playbook
pub mod Daemon
pub mod Examples
