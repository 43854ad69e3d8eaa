-- ===== src/Webhook/Events/Jobs.antt =====
-- modules/webhook/instagram/instagram-webhook.service.ts: the jobs of a payload, described at once.
use trafego_flow.Common.{
  ◌≡◌, refl, Bool, true, false, Option, none, some, String, str_eq, List, [], ◌∷◌, ◌++◌,
  if◌then◌else◌,
}
use trafego_flow.Common.Http.{Result, ok, err}
use trafego_flow.Common.Action.{Action, pure, catch, ◌>>=◌, handled}
use trafego_flow.Webhook.Events.{
  InstagramMessagingEvent, InstagramCommentChangeEvent, InstagramEntry, InstagramWebhookPayload,
  Job, dm, comment, postback, Queue, job_options, each, each?, enqueue, enqueue_as, enqueue_message,
  enqueue_change, enqueue_entry, enqueue_events,
}

abbrev message_job :
    (page_id sender_id : String) → Option String → Option (Option String) → List Job
message_job page_id sender_id (some payload) message = postback page_id sender_id payload ∷ []
message_job page_id sender_id none none = []
message_job page_id sender_id none (some text) = dm page_id sender_id text ∷ []

abbrev pub message_jobs : String → InstagramMessagingEvent → List Job
message_jobs page_id event = message_job page_id event.sender_id event.postback event.message

abbrev pub change_jobs : String → InstagramCommentChangeEvent → List Job
change_jobs page_id change =
    if str_eq change.changed_field "comments"
    then comment page_id change.media_id change.comment_id change.text ∷ []
    else []

module _ {A : Type 0} (f : A → List Job) where
  abbrev pub all_jobs : List A → List Job
  all_jobs [] = []
  all_jobs (x ∷ xs) = f x ++ all_jobs xs

  abbrev pub all_jobs? : Option (List A) → List Job
  all_jobs? none = []
  all_jobs? (some xs) = all_jobs xs

abbrev pub entry_jobs : InstagramEntry → List Job
entry_jobs entry =
    all_jobs? (message_jobs entry.id) entry.messaging
    ++ all_jobs? (change_jobs entry.id) entry.changes

-- The jobs of a payload, in their order: those of each entry's messages, then of its comments.
abbrev pub jobs_of : InstagramWebhookPayload → List Job
jobs_of payload = all_jobs entry_jobs payload.entry

module _ {W : Type 0} (queue : Queue W) where
  -- The world after each job has been given to the queue, whether that succeeds or fails.
  abbrev pub added : List Job → W → W
  added [] w = w
  added (job ∷ jobs) w = added jobs (queue.add job job_options w).1

  added-append : (l m : List Job) (w : W) → added (l ++ m) w ≡ added m (added l w)
  added-append [] m w = refl
  added-append (job ∷ l) m w = added-append l m (queue.add job job_options w).1

  -- An action adds some jobs, and returns.
  record Adds (m : Action W (Unit {0})) (jobs : List Job) : Type 0 where
    at : (w : W) → m w ≡ (ok tt, added jobs w)

  enqueue-Adds : (job : Job) → Adds (enqueue queue job) (job ∷ [])
  unfolding enqueue catch pure
  enqueue-Adds job = record { at = λ w. go (queue.add job job_options w) }
    where
      go : (x : Result (Unit {0}) × W) → handled (λ e. pure tt) x ≡ (ok tt, x.1)
      go (ok tt, v) = refl
      go (err e, v) = refl

  then-Adds :
      {m n : Action W (Unit {0})} {l k : List Job}
      → Adds m l
      → Adds n k
      → Adds (m >>= λ _. n) (l ++ k)
  unfolding ◌>>=◌
  then-Adds {m} {n} {l} {k} first second = record {
    at = λ w. cc (first.at w, second.at (added l w), added-append l k w);
  }

  each-Adds :
      {A : Type 0} (f : A → Action W (Unit {0})) (jobs : A → List Job)
      → ((a : A) → Adds (f a) (jobs a))
      → (xs : List A) → Adds (each f xs) (all_jobs jobs xs)
  unfolding each pure
  each-Adds f jobs h [] = record { at = λ w. refl }
  each-Adds f jobs h (x ∷ xs) = then-Adds (h x) (each-Adds f jobs h xs)

  each?-Adds :
      {A : Type 0} (f : A → Action W (Unit {0})) (jobs : A → List Job)
      → ((a : A) → Adds (f a) (jobs a))
      → (xs : Option (List A)) → Adds (each? f xs) (all_jobs? jobs xs)
  unfolding pure
  each?-Adds f jobs h none = record { at = λ w. refl }
  each?-Adds f jobs h (some xs) = each-Adds f jobs h xs

  enqueue_message-Adds :
      (page_id : String) (event : InstagramMessagingEvent)
      → Adds (enqueue_message queue page_id event) (message_jobs page_id event)
  unfolding enqueue_message enqueue_as pure
  enqueue_message-Adds page_id event = go event.postback event.message
    where
      go :
          (p : Option String) (m : Option (Option String))
          → Adds
              (enqueue_as queue page_id event.sender_id p m)
              (message_job page_id event.sender_id p m)
      go (some payload) m = enqueue-Adds (postback page_id event.sender_id payload)
      go none none = record { at = λ w. refl }
      go none (some text) = enqueue-Adds (dm page_id event.sender_id text)

  enqueue_change-Adds :
      (page_id : String) (change : InstagramCommentChangeEvent)
      → Adds (enqueue_change queue page_id change) (change_jobs page_id change)
  unfolding enqueue_change pure
  enqueue_change-Adds page_id change = go (str_eq change.changed_field "comments")
    where
      job : Job
      job = comment page_id change.media_id change.comment_id change.text

      go : (b : Bool) → Adds (if b then enqueue queue job else pure tt) (if b then job ∷ [] else [])
      go true = enqueue-Adds job
      go false = record { at = λ w. refl }

  enqueue_entry-Adds :
      (entry : InstagramEntry) → Adds (enqueue_entry queue entry) (entry_jobs entry)
  unfolding enqueue_entry
  enqueue_entry-Adds entry =
      then-Adds
        (each?-Adds (enqueue_message queue entry.id) (message_jobs entry.id)
          (enqueue_message-Adds entry.id) entry.messaging)
        (each?-Adds (enqueue_change queue entry.id) (change_jobs entry.id)
          (enqueue_change-Adds entry.id) entry.changes)

  pub enqueue_events-Adds :
      (payload : InstagramWebhookPayload) (w : W)
      → enqueue_events queue payload w ≡ (ok tt, added (jobs_of payload) w)
  unfolding enqueue_events
  enqueue_events-Adds payload w =
      (each-Adds (enqueue_entry queue) entry_jobs enqueue_entry-Adds payload.entry).at w
