-- ===== src/Scenarios/Files.antt =====
-- Runs of packages/domain/src/policies/file-scope-policy.ts.
use copilot_factory.Prelude.{true, false, not, ◌&&◌, ◌≡◌, refl, List, [], ◌∷◌}
use copilot_factory.Domain.Policy.Paths.{
  Text, codes, is_space, trim, starts_with, normalize_path, normalize_root,
}
use copilot_factory.Domain.Policy.Paths.Normal.{IsClean, normalize_path-IsClean}
use copilot_factory.Domain.Policy.Paths.Segments.{
  is_above, segments, root_segments, normalize_root-segments,
}
use copilot_factory.Domain.Policy.FileScope.{
  FileScopePolicy, FileScopeViolationAction, is_empty, is_under, check_write_access, classify_path,
  judge_write,
}
use copilot_factory.Domain.Policy.FileScope.Access.{
  category, may_write_in, check_write_access-allowed,
}

abbrev policy : FileScopePolicy
policy = record {
  read_roots = codes "docs/" ∷ [];
  write_roots = codes "./apps/web" ∷ [];
  deny_roots = codes "apps/web/secrets" ∷ [];
  allow_read_outside_scope = false;
  allow_write_outside_scope = false;
  on_violation = FileScopeViolationAction.fail_run;
}

normalized_root : normalize_path (codes "./apps/web") ≡ codes "apps/web"
unfolding normalize_path trim is_space
normalized_root = refl

normalize_path-IsClean_example : IsClean true (normalize_path (codes ".//apps//web"))
normalize_path-IsClean_example = normalize_path-IsClean (codes ".//apps//web")

normalize_root-segments_example :
    starts_with (normalize_root (codes "./apps/web")) (codes "apps/website/a.ts")
    ≡ is_above (root_segments (codes "./apps/web")) (segments (codes "apps/website/a.ts"))
normalize_root-segments_example =
    normalize_root-segments (codes "./apps/web") (codes "apps/website/a.ts") 97 (codes "pps/web")
      normalized_root

written : (check_write_access (codes "/apps/web//main.ts") policy).allowed ≡ true
unfolding check_write_access judge_write classify_path is_under normalize_root normalize_path trim
    is_space
written = refl

not_written : (check_write_access (codes "apps/website/main.ts") policy).allowed ≡ false
unfolding check_write_access judge_write classify_path is_under normalize_root normalize_path trim
    is_space
not_written = refl

check_write_access-allowed_example :
    (check_write_access (codes "apps/web/secrets/key") policy).allowed ≡ (
      not (is_empty (normalize_path (codes "apps/web/secrets/key")))
      && may_write_in policy (category (normalize_path (codes "apps/web/secrets/key")) policy))
check_write_access-allowed_example =
    check_write_access-allowed (codes "apps/web/secrets/key") policy

-- A root that stands for the whole repository covers nothing, and a dot segment behind a slash stays.
dot_root_covers_nothing : is_under (normalize_path (codes "src/a.ts")) (codes ".") ≡ false
unfolding is_under normalize_root normalize_path trim is_space
dot_root_covers_nothing = refl

dot_segment_stays :
    normalize_path (codes "/./apps/web/secrets/key") ≡ codes "./apps/web/secrets/key"
unfolding normalize_path trim is_space
dot_segment_stays = refl

abbrev files : List Text
files = codes "apps/web/a.ts" ∷ codes "docs/a.md" ∷ []
