-- ===== src/Finalizer/Tracking.antt =====
-- internal/controller/finalizer.go: InitializeCleanupTracking. The Kubernetes client, which reads
-- and writes the object in a world W, the retry of client-go and the clock are parameters.
use uptime_robot_operator.Prelude.{String, Option, none, some}
use uptime_robot_operator.Prelude.Int.{ℤ}
use uptime_robot_operator.Failure.{Failure, Result, ok, err}
use uptime_robot_operator.Finalizer.Annotations.{Annotations, lookup, insert, TimeFormat}
use uptime_robot_operator.Finalizer.Cleanup.{cleanup_start_time_annotation}

-- the part of an object's metadata that is read and written
pub record Meta : Type 0 where
  pub annotations : Annotations
  pub resource_version : String

-- client.Client on one object, and the clock
pub record Client (W : Type 0) : Type 0 where
  pub get : W → Result Meta × W
  pub update : Meta → W → Result Meta × W
  pub now : W → ℤ

-- retry.RetryOnConflict with retry.DefaultRetry, for a function that also writes the object
abbrev pub Retry : Type 0 → Type 0
Retry W = (W × Meta → Option Failure × (W × Meta)) → W × Meta → Option Failure × (W × Meta)

-- what an update comes to: its error, or the object as the server has stored it
abbrev pub written {ℓ} : {W : Type ℓ} → Meta → Result Meta × W → Option Failure × (W × Meta)
written obj (ok stored, w) = (none, (w, stored))
written obj (err e, w) = (some e, (w, obj))

module _ {W : Type 0} (time : TimeFormat) (k8s : Client W) where
  -- the write of the annotation, if the object that was read has none
  abbrev pub write_if : Meta → Meta → W → Option String → Option Failure × (W × Meta)
  write_if obj current w (some v) = (none, (w, record obj { annotations = current.annotations }))
  write_if obj current w none = written obj (
      k8s.update
        (record current {
          annotations =
              insert cleanup_start_time_annotation (time.format (k8s.now w)) current.annotations;
        })
        w)

  unfoldable pub write : Meta → Meta → W → Option Failure × (W × Meta)
  write obj current w =
      write_if obj current w (lookup cleanup_start_time_annotation current.annotations)

  abbrev pub read : Meta → Result Meta × W → Option Failure × (W × Meta)
  read obj (ok current, w) = write obj current w
  read obj (err e, w) = (some e, (w, obj))

  -- one try: read the object, and set the annotation if it is missing
  unfoldable pub try_track : W × Meta → Option Failure × (W × Meta)
  unfolding write
  try_track (w, obj) = read obj (k8s.get w)

  abbrev pub track_if : Retry W → W × Meta → Option String → Option Failure × (W × Meta)
  track_if retry s (some v) = (none, s)
  track_if retry s none = retry try_track s

  -- InitializeCleanupTracking
  unfoldable pub initialize_cleanup_tracking : Retry W → W × Meta → Option Failure × (W × Meta)
  initialize_cleanup_tracking retry s =
      track_if retry s (lookup cleanup_start_time_annotation s.1.annotations)
