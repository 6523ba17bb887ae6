-- ===== src/Pipeline/Modes/Video.antt =====
-- How long a fallback video of MediaPipeline in src/media_pipeline.cpp plays.
use wh_repeater.Common.{none, some, ◌≡◌}
use wh_repeater.Domain.{Text}
use wh_repeater.Pipeline.State.{fallback_video, MediaPipeline}
use wh_repeater.Pipeline.Modes.Steps.{
  Command, selecting, playing, stopping, ending_live, ending_video,
}

-- Commands that leave a video alone: all but its stop, the end of its playback, another video, an input,
-- and the end of a received stream.
abbrev pub LeavesVideo : {D : Type 0} → Command D → Type 0
LeavesVideo (selecting (some input)) = ⊥
LeavesVideo (playing path) = ⊥
LeavesVideo stopping = ⊥
LeavesVideo (ending_live now indicator) = ⊥
LeavesVideo ending_video = ⊥
LeavesVideo _ = Unit

-- A video is on.
pub record Plays {D : Type 0} (path : Text) (s : MediaPipeline D) : Type 0 where
  pub video : s.mode ≡ fallback_video
  pub same_path : s.fallback_video_path ≡ some path
  pub alone : s.active ≡ none
