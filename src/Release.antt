-- ===== src/Release.antt =====
-- scripts/github_release_tag.py and scripts/github_immutable_release.py: a release is published once,
-- at an exact tag, with the bytes that were validated.
pub mod Tag
pub mod Publish
mod Tests
