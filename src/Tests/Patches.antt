-- ===== src/Tests/Patches.antt =====
-- core/unified_patch.py at concrete inputs.
use sciguard_autopilot.Base.{◌≡◌, refl, String, false, List, ok}
use sciguard_autopilot.Base.Texts.{strip, lstrip, rstrip}
use sciguard_autopilot.Patch.Parsing.{split_lines, header_path, match_hunk}
use sciguard_autopilot.Patch.Applying.{
  AppliedPatch, open_hunk, read_line, take_source, apply_line, apply_lines, concatenated,
  apply_unified_patch,
}
use sciguard_autopilot.Patch.Applying.Edits.{
  Edit, old_side, new_side, changes, asked_for, body_of, apply_unified_patch-edits,
}

abbrev original : String
original = "a\nb\nc\n"

abbrev patch : String
patch = "--- a/f.py\n+++ b/f.py\n@@ -2 +2,2 @@\n-b\n+x\n+y\n"

abbrev patched : AppliedPatch
patched = record { path = "f.py"; content = "a\nx\ny\nc\n" }

patch_applies : apply_unified_patch original patch ≡ ok patched
unfolding apply_unified_patch split_lines header_path match_hunk open_hunk read_line take_source
    apply_line apply_lines strip lstrip rstrip
patch_applies = refl

apply_unified_patch-edits_example :
    (es : List Edit) × (split_lines original ≡ old_side es)
    × ("a\nx\ny\nc\n" ≡ concatenated (new_side es))
    × (changes es ≡ asked_for false (body_of (split_lines patch)))
apply_unified_patch-edits_example = apply_unified_patch-edits original patch patched patch_applies

-- A hunk of no old lines names the line that it stands behind. Here that is `a`, and the line is put
-- before it.
inserted_too_early :
    apply_unified_patch original "--- a/f.py\n+++ b/f.py\n@@ -1,0 +2 @@\n+x\n"
    ≡ ok (record { path = "f.py"; content = "x\na\nb\nc\n" })
unfolding apply_unified_patch split_lines header_path match_hunk open_hunk read_line take_source
    apply_line apply_lines strip lstrip rstrip
inserted_too_early = refl
