-- ===== src/Plan/Frames.antt =====
-- plan.ts: the frames that are decoded fit the pixel budget.
use native.Mathlib.Nat.{mul-le-mul_left, mul-le-mul_right, div-mul-le_self, le-div_iff_mul-le}
use framework_module_resizer.Prelude.{
  ℕ, ◌*◌, ◌/◌, ◌≤◌, ◌<◌, min, max, Bool, true, false, not, ◌&&◌, ◌||◌, any, ltb, ◌∙◌, List, [], ◌∷◌,
  ◌≡◌, ◌⊎◌, inl, inr, refl, or_else, ◌==◌, if◌then◌else◌, leb, le→leb, leb→le, arith, All,
  Bool-cases,
}
use framework_module_resizer.Plan.{
  VariantPlan, SourceInfo, ResizeLimits, pixels, frame_pixels, budget, frames_for, frames_to_decode,
}

-- A stack of `frames` at every animated size fits.
abbrev pub Fits : (frames pixels_allowed : ℕ) → List VariantPlan → Type 0
Fits frames allowed = All (λ p. not p.size.animated || leb (frames * pixels p.size) allowed ≡ true)

frame_pixels-grows : (ps : List VariantPlan) (most : ℕ) → most ≤ frame_pixels ps most
unfolding frame_pixels
frame_pixels-grows [] most = omega arith
frame_pixels-grows (p ∷ ps) most =
    let h = frame_pixels-grows ps (if p.size.animated then max most (pixels p.size) else most) in
    ground arith

-- Every animated size has at most as many pixels.
frame_pixels-covers :
    (ps : List VariantPlan) (most : ℕ)
    → All (λ p. not p.size.animated || leb (pixels p.size) (frame_pixels ps most) ≡ true) ps
unfolding frame_pixels
frame_pixels-covers [] most = tt
frame_pixels-covers (p ∷ ps) most = (by_test (p.size.animated), frame_pixels-covers ps _)
  where
    by_test :
        (b : Bool)
        → not b
            || leb (pixels p.size) (frame_pixels ps (if b then max most (pixels p.size) else most))
          ≡ true
    by_test true =
        le→leb _ _ (let h = frame_pixels-grows ps (max most (pixels p.size)) in omega arith)
    by_test false = refl

smaller : (a frames frame allowed : ℕ) → a ≤ frame → frames * frame ≤ allowed → frames * a ≤ allowed
smaller a frames frame allowed le h = let m = mul-le-mul_left frames le in omega arith

covers-Fits :
    (ps : List VariantPlan) (frames most allowed : ℕ)
    → All (λ p. not p.size.animated || leb (pixels p.size) most ≡ true) ps
    → frames * most ≤ allowed
    → Fits frames allowed ps
covers-Fits [] frames most allowed c h = tt
covers-Fits (p ∷ ps) frames most allowed (c, cs) h =
    (by_test (p.size.animated) c, covers-Fits ps frames most allowed cs h)
  where
    by_test :
        (b : Bool)
        → not b || leb (pixels p.size) most ≡ true
        → not b || leb (frames * pixels p.size) allowed ≡ true
    by_test true c' = le→leb _ _ (smaller (pixels p.size) frames most allowed (leb→le _ _ c') h)
    by_test false c' = refl

-- The quotient keeps a stack of more than one frame within the budget.
frames_for-bounds :
    (info : SourceInfo) (limits : ResizeLimits) (frame : ℕ)
    → (frames_for info limits frame ≡ 1)
      ⊎ ((frames_for info limits frame * frame ≤ budget limits)
          × (frames_for info limits frame ≤ limits.animation_frames)
          × (frames_for info limits frame ≤ or_else info.pages 1))
unfolding frames_for
frames_for-bounds info limits frame =
    bounded (or_else info.pages 1) (budget limits / frame) _ (div-mul-le_self (budget limits) frame)
      refl
  where
    bounded :
        (pages quotient frames : ℕ)
        → quotient * frame ≤ budget limits
        → frames ≡ max 1 (min (min pages limits.animation_frames) quotient)
        → (frames ≡ 1)
          ⊎ ((frames * frame ≤ budget limits)
              × (frames ≤ limits.animation_frames)
              × (frames ≤ pages))
    bounded pages quotient frames h e = by_test (Bool-cases (leb frames 1))
      where
        by_test :
            (leb frames 1 ≡ true) ⊎ (leb frames 1 ≡ false)
            → (frames ≡ 1)
              ⊎ ((frames * frame ≤ budget limits)
                  × (frames ≤ limits.animation_frames)
                  × (frames ≤ pages))
        by_test (inl few) = inl (ground arith)
        by_test (inr many) =
            let le : frames ≤ quotient = ground arith in
            let m = mul-le-mul_right frame le in inr (omega arith, ground arith, ground arith)

-- At least one frame is decoded.
frames_for-positive :
    (info : SourceInfo) (limits : ResizeLimits) (frame : ℕ) → 1 ≤ frames_for info limits frame
unfolding frames_for
frames_for-positive info limits frame =
    positive (min (min (or_else info.pages 1) limits.animation_frames) (budget limits / frame))
  where
    positive : (n : ℕ) → 1 ≤ max 1 n
    positive n = omega arith

-- The plan is animated, and its size has pixels.
abbrev pub moves : VariantPlan → Bool
moves p = p.size.animated && ltb 0 (pixels p.size)

frame_pixels-zero :
    (ps : List VariantPlan) (most : ℕ)
    → (frame_pixels ps most == 0) ≡ (most == 0) && not (any moves ps)
unfolding frame_pixels
frame_pixels-zero [] most = ground arith
frame_pixels-zero (p ∷ ps) most =
    by_test (p.size.animated) (pixels p.size) (any moves ps) (frame_pixels-zero ps _)
  where
    by_test :
        (b : Bool) (n : ℕ) (m : Bool)
        → (frame_pixels ps (if b then max most n else most) == 0)
          ≡ ((if b then max most n else most) == 0) && not m
        → (frame_pixels ps (if b then max most n else most) == 0)
          ≡ (most == 0) && not (b && ltb 0 n || m)
    by_test true n m ih = ih ∙ ground arith
    by_test false n m ih = ih

-- What is decoded for the plans, when `frames` are.
abbrev pub FramesSpec : (frames : ℕ) → SourceInfo → List VariantPlan → ResizeLimits → Type 0
FramesSpec frames info plans limits =
    ((any moves plans ≡ false) × (frames ≡ 1))
    ⊎ ((any moves plans ≡ true)
        × (1 ≤ frames)
        × ((frames ≡ 1)
            ⊎ (Fits frames (budget limits) plans
                × (frames * (info.width * info.height) ≤ budget limits)
                × (frames ≤ limits.animation_frames)
                × (frames ≤ or_else info.pages 1))))

-- Without an animated plan whose size has pixels exactly one frame is decoded. With one, at least one
-- frame is; and when it is more than one, they are no more than the source has, no more than the
-- limit on frames, and so few that stacked at the size of the source, and at the size of every
-- animated plan, they stay within both pixel limits.
pub frames_to_decode-bounds :
    (info : SourceInfo) (plans : List VariantPlan) (limits : ResizeLimits)
    → FramesSpec (frames_to_decode info plans limits) info plans limits
unfolding frames_to_decode
frames_to_decode-bounds info plans limits =
    by_test (any moves plans) refl (frame_pixels plans 0 == 0) (frame_pixels-zero plans 0)
  where
    most : ℕ
    most = max (frame_pixels plans 0) (info.width * info.height)

    Several : ℕ → Type 0
    Several frames =
        (frames ≡ 1)
        ⊎ (Fits frames (budget limits) plans
            × (frames * (info.width * info.height) ≤ budget limits)
            × (frames ≤ limits.animation_frames)
            × (frames ≤ or_else info.pages 1))

    several :
        (frames : ℕ)
        → (frames ≡ 1)
          ⊎ ((frames * most ≤ budget limits)
              × (frames ≤ limits.animation_frames)
              × (frames ≤ or_else info.pages 1))
        → Several frames
    several frames (inl one) = inl one
    several frames (inr (h, a, b)) = inr (
      covers-Fits plans frames (frame_pixels plans 0) (budget limits) (frame_pixels-covers plans 0)
          (smaller (frame_pixels plans 0) frames most (budget limits) (omega arith) h),
      smaller (info.width * info.height) frames most (budget limits) (omega arith) h,
      a,
      b,
    )

    by_test :
        (m : Bool)
        → any moves plans ≡ m
        → (z : Bool) → z ≡ (0 == 0) && not (any moves plans)
        → FramesSpec (if z then 1 else frames_for info limits most) info plans limits
    by_test false e true q = inl (e, refl)
    by_test true e false q = inr (
      e,
      frames_for-positive info limits most,
      several (frames_for info limits most) (frames_for-bounds info limits most),
    )
    by_test false e false q = absurd (ground (arith, q, e))
    by_test true e true q = absurd (ground (arith, q, e))

-- No count is left out: with an animated plan, every number of frames that the source has, that the
-- limit on frames allows and that fits both pixel limits when stacked at the larger of the source's
-- size and the largest animated size, is at most the number decoded.
pub frames_to_decode-most :
    (info : SourceInfo) (plans : List VariantPlan) (limits : ResizeLimits) (n : ℕ)
    → 0 < frame_pixels plans 0
    → n ≤ or_else info.pages 1
    → n ≤ limits.animation_frames
    → n * max (frame_pixels plans 0) (info.width * info.height) ≤ budget limits
    → n ≤ frames_to_decode info plans limits
unfolding frames_to_decode frames_for
frames_to_decode-most info plans limits n animated a b fits =
    let q : n ≤ budget limits / max (frame_pixels plans 0) (info.width * info.height) =
      (le-div_iff_mul-le {k = max (frame_pixels plans 0) (info.width * info.height)} {x = n}
          {y = budget limits} (omega arith)).1
        fits in
    ground arith
