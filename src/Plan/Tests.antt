-- ===== src/Plan/Tests.antt =====
-- An animation of 40 frames with one animated and one still size.
use framework_module_resizer.Prelude.{◌≤◌, none, some, List, [], ◌∷◌, ◌≡◌, refl, true, false, arith}
use framework_module_resizer.Types.{MissingPreview}
use framework_module_resizer.Plan.{
  SizePlan, fill, VariantPlan, SourceInfo, ResizeLimits, frame_pixels, frames_to_decode,
}
use framework_module_resizer.Plan.Frames.{
  FramesSpec, frames_to_decode-bounds, frames_to_decode-most,
}

abbrev small : SizePlan
small = record {
  key = "20x10:fill::a";
  width = 20;
  height = 10;
  mode = fill;
  sharpen = false;
  animated = true;
}

abbrev variant : MissingPreview
variant = record {
  size_key = "20x10";
  filters = none;
  requested_width = some 20;
  requested_height = some 10;
  format = "gif";
  fit = none;
}

abbrev plans : List VariantPlan
plans =
    record { variant = variant; identity = "a"; size = small }
    ∷ record { variant = variant; identity = "b"; size = record small { animated = false } }
    ∷ []

abbrev info : SourceInfo
info = record { width = 40; height = 20; pages = some 40 }

abbrev limits : ResizeLimits
limits = record { source_pixels = 9000; input_pixels = 8500; animation_frames = 30 }

frames_run : frames_to_decode info plans limits ≡ 10
unfolding frames_to_decode
frames_run = refl

frames_to_decode-bounds_example : FramesSpec (frames_to_decode info plans limits) info plans limits
frames_to_decode-bounds_example = frames_to_decode-bounds info plans limits

frames_to_decode-most_example : 10 ≤ frames_to_decode info plans limits
unfolding frame_pixels
frames_to_decode-most_example =
    frames_to_decode-most info plans limits 10 (omega arith) (omega arith) (omega arith)
      (omega arith)
