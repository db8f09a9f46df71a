-- ===== src/Finalizer/TrackingLaws.antt =====
-- The start of a cleanup is recorded once (internal/controller/finalizer.go).
use uptime_robot_operator.Prelude.{
  ◌≡◌, refl, String, Bool, true, false, Option, none, some, same_text_refl,
}
use uptime_robot_operator.Failure.{Failure, Result, ok, err}
use uptime_robot_operator.Finalizer.Annotations.{lookup, insert, lookup-insert, TimeFormat}
use uptime_robot_operator.Finalizer.Cleanup.{cleanup_start_time_annotation}
use uptime_robot_operator.Finalizer.Tracking.{
  Meta, Client, Retry, written, write, write_if, read, track_if, try_track,
  initialize_cleanup_tracking,
}

abbrev pub is_some : Option String → Bool
is_some none = false
is_some (some v) = true

-- the start is recorded on an object
abbrev pub is_tracked : Meta → Bool
is_tracked obj = is_some (lookup cleanup_start_time_annotation obj.annotations)

-- RetryOnConflict answers what its function answered the last time.
pub record IsRetry {W : Type 0} (retry : Retry W) : Type 0 where
  pub last :
      (f : W × Meta → Option Failure × (W × Meta)) (s : W × Meta)
      → (t : W × Meta) × (retry f s ≡ f t)

-- An update without an error gives back the annotations that were sent.
pub record IsStored {W : Type 0} (k8s : Client W) : Type 0 where
  pub kept :
      (m : Meta) (w : W) {stored : Meta} {w' : W}
      → k8s.update m w ≡ (ok stored, w')
      → stored.annotations ≡ m.annotations

module _ {W : Type 0} (time : TimeFormat) (k8s : Client W) (s : IsStored k8s) where
  written-tracked :
      (obj m : Meta) (w : W) (r : Result Meta × W)
      → k8s.update m w ≡ r
      → is_tracked m ≡ true
      → (written obj r).0 ≡ none
      → is_tracked (written obj r).1.1 ≡ true
  written-tracked obj m w (ok stored, w') e t h = rw (s.kept m w e) t
  written-tracked obj m w (err f, w') e t h = cc

  -- the object that is sent
  abbrev started : Meta → W → Meta
  started current w = record current {
    annotations =
        insert cleanup_start_time_annotation (time.format (k8s.now w)) current.annotations;
  }

  is_tracked-started : (current : Meta) (w : W) → is_tracked (started current w) ≡ true
  is_tracked-started current w =
      rw
        (lookup-insert cleanup_start_time_annotation cleanup_start_time_annotation
          (time.format (k8s.now w)) current.annotations)
        (rw (same_text_refl cleanup_start_time_annotation))

  write_if-tracked :
      (obj current : Meta) (w : W) (o : Option String)
      → lookup cleanup_start_time_annotation current.annotations ≡ o
      → (write_if time k8s obj current w o).0 ≡ none
      → is_tracked (write_if time k8s obj current w o).1.1 ≡ true
  write_if-tracked obj current w (some v) e h = rw e
  write_if-tracked obj current w none e h =
      written-tracked obj (started current w) w (k8s.update (started current w) w) refl
        (is_tracked-started current w) h

  read-tracked :
      (obj : Meta) (r : Result Meta × W)
      → (read time k8s obj r).0 ≡ none
      → is_tracked (read time k8s obj r).1.1 ≡ true
  unfolding write
  read-tracked obj (ok current, w) h = write_if-tracked obj current w _ refl h
  read-tracked obj (err e, w) h = cc

  module _ {retry : Retry W} (r : IsRetry retry) (w : W) (obj : Meta) where
    track_if-tracked :
        (o : Option String)
        → lookup cleanup_start_time_annotation obj.annotations ≡ o
        → (track_if time k8s retry (w, obj) o).0 ≡ none
        → is_tracked (track_if time k8s retry (w, obj) o).1.1 ≡ true
    unfolding try_track
    track_if-tracked (some v) e h = rw e
    track_if-tracked none e h =
        let (s', last) = r.last (try_track time k8s) (w, obj) in
        rw last (read-tracked s'.1 (k8s.get s'.0) (rw last at h))

    second_call :
        (s' : W × Meta)
        → is_tracked s'.1 ≡ true
        → initialize_cleanup_tracking time k8s retry s' ≡ (none, s')
    unfolding initialize_cleanup_tracking
    second_call s' t = found (lookup cleanup_start_time_annotation s'.1.annotations) t
      where
        found : (o : Option String) → is_some o ≡ true → track_if time k8s retry s' o ≡ (none, s')
        found (some v) h = refl
        found none h = cc

    -- After a call that reports no error, the object carries a start of the cleanup, and a second
    -- call changes nothing and calls nobody: the first start stays. Here an update that succeeds
    -- stores the annotations that it sends, and the retry answers what its last try answers.
    pub initialize_cleanup_tracking_once :
        (initialize_cleanup_tracking time k8s retry (w, obj)).0 ≡ none
        → (is_tracked (initialize_cleanup_tracking time k8s retry (w, obj)).1.1 ≡ true)
          × (initialize_cleanup_tracking time k8s retry
                (initialize_cleanup_tracking time k8s retry (w, obj)).1
              ≡ (none, (initialize_cleanup_tracking time k8s retry (w, obj)).1))
    unfolding initialize_cleanup_tracking
    initialize_cleanup_tracking_once h = let t = track_if-tracked _ refl h in (t, second_call _ t)
