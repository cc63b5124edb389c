-- ===== src/Dispatch/Lookup.antt =====
-- scripts/github_workflow_dispatch.py: reading the runs of a workflow.
use chromium_compile.Prelude.{
  ℕ, zero, suc, ◌+◌, ◌-◌, ◌^◌, min, String, Bool, true, ◌&&◌, not, Option, none, some, List, [],
  ◌∷◌, ◌++◌, eqb, leb, ◌==◌, if◌then◌else◌, length, is_empty, keep_if,
}
use chromium_compile.Result.{Result, ok, raise, value_error, dispatch_error, os_error}
use chromium_compile.Json.{Fields, as_list, objects, get_str, concat, show}
use chromium_compile.Host.{
  Host, Completed, Ended, exited, timed_out, broken, naive, aware, Act, throw, lift, ◌>>=◌, ◌>>◌,
  recover, start_gh, sleep_for,
}
use chromium_compile.Text.Digits.{is_digits}
use chromium_compile.Text.Strip.{strip, replace_char, lower_hex, is_sha}
use chromium_compile.Watcher.Gh.{or_text}

-- The optional filters of `list_recent_runs`; times are aware, in microseconds.
pub record Query : Type 0 where
  pub branch : Option String
  pub commit : Option String
  pub created_after : Option ℕ
  pub status : Option String

abbrev pub active_statuses : List String
active_statuses = "in_progress" ∷ "queued" ∷ "waiting" ∷ "pending" ∷ "requested" ∷ []

unfoldable pub normalize_expected_sha : String → Result String
unfolding is_sha lower_hex
normalize_expected_sha value =
    if is_sha value
    then ok (lower_hex value)
    else raise value_error "Expected workflow head SHA must be exactly 40 hexadecimal characters"

abbrev pub normalize_optional : Option String → Result (Option String)
normalize_optional none = ok none
normalize_optional (some value) = elim (normalize_expected_sha value) [
  | ok sha ↦ ok (some sha)
  | raise x m ↦ raise x m
]

abbrev flag : String → Option String → List String
flag name none = []
flag name (some value) = concat (name ∷ value ∷ []) ∷ []

module _ (h : Host) (lookup_limit : ℕ) where
  unfoldable pub ended_well : Ended → Result Completed
  ended_well timed_out = raise dispatch_error "timed out"
  ended_well broken = raise os_error "gh"
  ended_well (exited c) = if eqb c.returncode 0 then ok c else raise dispatch_error "failed"

  -- `run_gh(args, timeout=timeout)`
  unfoldable pub run_gh : List String → ℕ → Act h.World Completed
  unfolding ended_well ◌>>=◌ start_gh
  run_gh args timeout = do ended ← start_gh h args timeout; lift (ended_well ended)

  -- `_created_filter_value` cuts the fraction of a second; `to_iso` gives the text with `Z`.
  abbrev created_flag : Option ℕ → List String
  created_flag none = []
  created_flag (some t) = concat ("--created=" ∷ ">=" ∷ h.to_iso t ∷ []) ∷ []

  unfoldable pub runs_command : String → String → Query → List String
  runs_command repository workflow query =
      ("run" ∷ "list" ∷ "--repo" ∷ repository ∷ "--workflow" ∷ workflow ∷ [])
      ++ (flag "--branch=" query.branch
          ++ (flag "--commit=" query.commit
              ++ (created_flag query.created_after
                  ++ (flag "--status=" query.status
                      ++ ("--limit"
                          ∷ show lookup_limit
                          ∷ "--json"
                          ∷ "databaseId,displayTitle,headBranch,headSha,status,conclusion,createdAt"
                          ∷ [])))))

  runs_of : Completed → Result (List Fields)
  runs_of c = elim (h.loads (or_text c.stdout "[]")) [
    | none ↦ raise dispatch_error "invalid JSON"
    | some payload ↦ elim (as_list payload) [
      | none ↦ raise dispatch_error "gh run list returned non-list JSON"
      | some items ↦ ok (objects items)
    ]
  ]

  unfoldable pub read_runs : List String → Act h.World (List Fields)
  unfolding runs_of ◌>>=◌
  read_runs command = do result ← run_gh command 90; lift (runs_of result)

  -- The loop over the attempts, with the number of those left after this one
  unfoldable pub recent_attempts : ℕ → ℕ → List String → Act h.World (List Fields)
  recent_attempts zero attempt command = read_runs command
  recent_attempts (suc left) attempt command =
      recover dispatch_error (read_runs command)
        λ _. do sleep_for h (min (2 ^ (attempt - 1)) 5); recent_attempts left (attempt + 1) command

  -- `list_recent_runs`, with its default of three attempts
  unfoldable pub list_recent_runs : String → String → Query → Act h.World (List Fields)
  unfolding ◌>>=◌
  list_recent_runs repository workflow query = do
    commit ← lift (normalize_optional query.commit)
    recent_attempts 2 1 (runs_command repository workflow (record query { commit = commit }))

  abbrev sha_fits : Option String → Fields → Bool
  sha_fits none run = true
  sha_fits (some sha) run = lower_hex (get_str h.repr "headSha" run) == lower_hex sha

  abbrev status_fits : Option String → Fields → Bool
  status_fits none run = true
  status_fits (some status) run = get_str h.repr "status" run == status

  unfoldable pub title_ref_fit : String → String → Fields → Bool
  title_ref_fit title ref run =
      get_str h.repr "displayTitle" run == title && get_str h.repr "headBranch" run == ref

  -- The comprehension of `_exact_runs_or_fail_closed`
  unfoldable pub exact_run : String → String → Option String → Option String → Fields → Bool
  unfolding title_ref_fit
  exact_run title ref sha status run =
      title_ref_fit title ref run && (sha_fits sha run && status_fits status run)

  -- An empty answer counts only if the listing was not cut at the limit.
  unfoldable pub matches_or_fail : (Fields → Bool) → List Fields → Result (List Fields)
  unfolding keep_if
  matches_or_fail fits runs =
      let matches = keep_if fits runs in
      if is_empty matches && leb lookup_limit (length runs)
      then raise dispatch_error "Workflow run lookup saturated"
      else ok matches

  unfoldable pub exact_runs_or_fail_closed :
      String
      → String
      → String
      → String
      → Option String
      → Option ℕ
      → Option String
      → Act h.World (List Fields)
  unfolding ◌>>=◌
  exact_runs_or_fail_closed repository workflow title ref sha created_after status = do
    runs ←
        list_recent_runs repository workflow (record {
          branch = some ref;
          commit = sha;
          created_after = created_after;
          status = status;
        })
    lift (matches_or_fail (exact_run title ref sha status) runs)

  -- `datetime.fromisoformat(raw.replace("Z", "+00:00"))`, where a naive moment is refused
  unfoldable pub utc_moment : String → Result ℕ
  unfolding replace_char
  utc_moment raw = elim (h.from_iso (replace_char b'Z' "+00:00" raw)) [
    | none ↦ raise dispatch_error "invalid createdAt metadata"
    | some moment ↦ elim moment [
      | naive t ↦ raise dispatch_error "timezone-naive createdAt metadata"
      | aware t ↦ ok t
    ]
  ]

  unfoldable pub workflow_run_created_at : String → String → Act h.World ℕ
  unfolding is_digits ◌>>=◌ strip
  workflow_run_created_at repository run_id =
      if not (is_digits run_id) then throw value_error "Run ID must be numeric" else do
        result ←
            run_gh
              ("api"
                ∷ concat ("repos/" ∷ repository ∷ "/actions/runs/" ∷ run_id ∷ [])
                ∷ "--jq"
                ∷ ".created_at"
                ∷ [])
              90
        lift (utc_moment (strip result.stdout))

  sha_of : Completed → Result String
  sha_of c =
      let sha = strip c.stdout in
      if is_sha sha
      then ok (lower_hex sha)
      else raise dispatch_error "GitHub returned an invalid commit SHA"

  unfoldable pub resolve_ref_sha : String → String → Act h.World String
  unfolding sha_of ◌>>=◌
  resolve_ref_sha repository ref = do
    result ←
        run_gh
          ("api"
            ∷ concat ("repos/" ∷ repository ∷ "/commits/" ∷ h.quote ref ∷ [])
            ∷ "--jq"
            ∷ ".sha"
            ∷ [])
          90
    lift (sha_of result)
