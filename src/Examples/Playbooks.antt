-- ===== src/Examples/Playbooks.antt =====
-- The theorem on the variables of a run, at a concrete server.
use xcplane.Common.{List, [], ◌∷◌, string_eq}
use xcplane.Actions.{AnsibleAction, xray_restore_db, ssh_setup}

abbrev actions : List AnsibleAction
actions = xray_restore_db ∷ ssh_setup ∷ []
