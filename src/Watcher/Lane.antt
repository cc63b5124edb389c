-- ===== src/Watcher/Lane.antt =====
-- scripts/chromium_stable_watcher.py: `LaneConfig` and the two lanes.
use chromium_compile.Prelude.{String, List, [], ◌∷◌}

pub record LaneConfig : Type 0 where
  pub key : String
  pub target_os : String
  pub version_platform : String
  pub workflows : List String
  pub tag_suffix : String
  pub package_suffix : String
  pub issue_prefix : String
  pub preflight_workflow : String
  pub preflight_title_prefix : String
  pub summary_title : String
  pub minimum_key : String
  pub verified_key : String
  pub legacy_mutable_key : String

abbrev pub port_workflows : List String
port_workflows =
    "chromium-i686-preflight.yml" ∷ "chromium-i686.yml" ∷ "publish-i686-release-handoff.yml"
    ∷ "publish-i686-release.yml" ∷ []

abbrev pub linux_lane : LaneConfig
linux_lane = record {
  key = "linux";
  target_os = "linux";
  version_platform = "linux";
  workflows = port_workflows;
  tag_suffix = "linux-i686";
  package_suffix = "linux-i686.tar.xz";
  issue_prefix = "i686-port";
  preflight_workflow = "chromium-i686-preflight.yml";
  preflight_title_prefix = "Chromium i686 preflight";
  summary_title = "Chromium i686 stable watcher";
  minimum_key = "minimum_version";
  verified_key = "verified_builds";
  legacy_mutable_key = "legacy_mutable_releases";
}

abbrev pub windows_lane : LaneConfig
windows_lane = record {
  key = "windows";
  target_os = "win";
  version_platform = "win";
  workflows =
      "chromium-windows-i686-preflight.yml" ∷ "chromium-windows-i686.yml"
      ∷ "publish-windows-i686-release-handoff.yml" ∷ "publish-windows-i686-release.yml" ∷ [];
  tag_suffix = "windows-i686";
  package_suffix = "windows-i686.zip";
  issue_prefix = "windows-i686-port";
  preflight_workflow = "chromium-windows-i686-preflight.yml";
  preflight_title_prefix = "Chromium Windows i686 preflight";
  summary_title = "Chromium Windows i686 stable watcher";
  minimum_key = "windows_minimum_version";
  verified_key = "windows_verified_builds";
  legacy_mutable_key = "windows_legacy_mutable_releases";
}
