-- ===== src/Plan.antt =====
-- plan.ts: what the decoder and the render do with a plan: the order of its variants, and how many
-- frames are decoded. The exact geometry of a size, in floating point, is not modelled.
pub mod Frames
mod Tests
use framework_module_resizer.Prelude.{
  ℕ, ◌*◌, ◌/◌, min, max, String, Bool, true, false, Option, List, [], ◌∷◌, ◌++◌, or_else, ◌==◌,
  if◌then◌else◌,
}
use framework_module_resizer.Types.{MissingPreview}

pub data Mode : Type 0 where
  fill cover : Mode

pub record SizePlan : Type 0 where
  pub key : String
  pub width : ℕ
  pub height : ℕ
  pub mode : Mode
  pub sharpen : Bool
  pub animated : Bool

pub record VariantPlan : Type 0 where
  pub variant : MissingPreview
  pub identity : String
  pub size : SizePlan

pub record SourceInfo : Type 0 where
  pub width : ℕ
  pub height : ℕ
  pub pages : Option ℕ

pub record ResizeLimits : Type 0 where
  pub source_pixels : ℕ
  pub input_pixels : ℕ
  pub animation_frames : ℕ

abbrev pub pixels : SizePlan → ℕ
pixels size = size.width * size.height

-- The largest animated size, in pixels.
unfoldable pub frame_pixels : List VariantPlan → ℕ → ℕ
frame_pixels [] most = most
frame_pixels (p ∷ ps) most =
    frame_pixels ps (if p.size.animated then max most (pixels p.size) else most)

abbrev pub budget : ResizeLimits → ℕ
budget limits = min limits.source_pixels limits.input_pixels

unfoldable pub frames_for : SourceInfo → ResizeLimits → ℕ → ℕ
frames_for info limits frame =
    max 1 (min (min (or_else info.pages 1) limits.animation_frames) (budget limits / frame))

-- `framesToDecode`
unfoldable pub frames_to_decode : SourceInfo → List VariantPlan → ResizeLimits → ℕ
unfolding frame_pixels frames_for
frames_to_decode info plans limits =
    if frame_pixels plans 0 == 0
    then 1
    else frames_for info limits (max (frame_pixels plans 0) (info.width * info.height))
