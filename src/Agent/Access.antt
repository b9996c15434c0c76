-- ===== src/Agent/Access.antt =====
-- core/agent.c: which processes may act for an agent.
use itrustee_tzdriver.Base.{
  ℕ, Bool, true, false, ◌&&◌, ◌||◌, not, List, [], ◌∷◌, ltb, ◌==◌, if◌then◌else◌,
}
use itrustee_tzdriver.Base.Errno.{Code, success, fail, eacces, einval}

-- A path is the list of its characters, without the terminating zero.
pub record CaInfo : Type 0 where
  pub path : List ℕ
  pub uid : ℕ
  pub agent_id : ℕ

-- This build allows no other agents.
abbrev pub g_allowed_ext_agent_ca : List CaInfo
g_allowed_ext_agent_ca = []

-- `strncmp` up to and with the terminating zero of the second path.
unfoldable pub same_path : List ℕ → List ℕ → Bool
same_path [] [] = true
same_path [] (y ∷ ys) = false
same_path (x ∷ xs) [] = false
same_path (x ∷ xs) (y ∷ ys) = (x == y) && same_path xs ys

unfoldable pub ca_matches : CaInfo → Bool → CaInfo → Bool
ca_matches ca check_agent_id entry =
    same_path ca.path entry.path
    && ((ca.uid == entry.uid) && (not check_agent_id || ca.agent_id == entry.agent_id))

-- The loops of `is_allowed_agent_ca`, from an entry of the table on.
unfoldable pub ca_allowed : CaInfo → Bool → List CaInfo → Code
ca_allowed ca check_agent_id [] = fail eacces
ca_allowed ca check_agent_id (entry ∷ later) =
    let rest = ca_allowed ca check_agent_id later in
    if ca_matches ca check_agent_id entry then success else rest

unfoldable pub is_allowed_agent_ca : CaInfo → Bool → Code
is_allowed_agent_ca ca check_agent_id = ca_allowed ca check_agent_id g_allowed_ext_agent_ca

-- The calling process: its user, and what `get_ca_path_and_uid` finds or its error.
pub record Process : Type 0 where
  pub uid : ℕ
  pub found : Code
  pub path : List ℕ

unfoldable pub check_ext_agent_access : Process → ℕ → Code
check_ext_agent_access p agent_id = elim p.found [
  | fail e ↦ fail e
  | success ↦ is_allowed_agent_ca (record { path = p.path; uid = p.uid; agent_id = agent_id }) true
]

abbrev pub failed : Code → Bool
failed success = false
failed (fail e) = true

-- The process may not act for the agent.
unfoldable pub is_fake : Process → ℕ → Bool
is_fake p agent_id = not (p.uid == 0) && failed (check_ext_agent_access p agent_id)

abbrev pub system_uid : ℕ
system_uid = 1000

abbrev pub agent_fs_id : ℕ
agent_fs_id = 0x46536673

abbrev pub agent_misc_id : ℕ
agent_misc_id = 0x4d495343

abbrev pub agent_socket_id : ℕ
agent_socket_id = 0x69e85664

abbrev pub secfile_load_agent_id : ℕ
secfile_load_agent_id = 0x4c4f4144

unfoldable pub is_built_in_agent : ℕ → Bool
is_built_in_agent agent_id =
    agent_id == agent_fs_id
    || agent_id == agent_misc_id
    || agent_id == agent_socket_id
    || agent_id == secfile_load_agent_id

abbrev pub sz_4k : ℕ
sz_4k = 4096

unfoldable pub is_valid_agent : Process → ℕ → ℕ → Bool → Bool
is_valid_agent p agent_id buffer_size user_agent =
    if is_fake p agent_id then false else not (user_agent && ltb sz_4k buffer_size)

unfoldable pub check_for_unregister_agent : Process → ℕ → Code
check_for_unregister_agent p agent_id =
    if not (p.uid == 0) && not (p.uid == system_uid)
    then fail einval
    else if is_built_in_agent agent_id
    then fail einval
    else success

-- The loop of `is_third_party_agent`.
unfoldable pub third_party_in : ℕ → List CaInfo → Bool
third_party_in agent_id [] = false
third_party_in agent_id (entry ∷ later) =
    let rest = third_party_in agent_id later in if entry.agent_id == agent_id then true else rest

unfoldable pub is_third_party_agent : ℕ → Bool
is_third_party_agent agent_id = third_party_in agent_id g_allowed_ext_agent_ca
