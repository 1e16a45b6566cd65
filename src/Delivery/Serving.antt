-- ===== src/Delivery/Serving.antt =====
-- The calls of the service and of the endpoint, one after another.
use niyam_ai.Base.{ℕ, Option, List, [], ◌∷◌, Text}
use niyam_ai.Delivery.Rows.{Message, Reply, Call, Store, Served}
use niyam_ai.Delivery.Requests.{
  Template, create_report_request, create_chase_request, approve, mark_near_miss_reviewed,
}
use niyam_ai.Delivery.Sending.{Settings, send}
use niyam_ai.Delivery.Webhook.{WebhookStatusEvent, apply_webhook_events}

pub data Request : Type 0 where
  creating_report : (new_id firm user narration_run_id : ℕ) (t : Template) → Request
  creating_chase : (new_id firm user match_result_id : ℕ) (t : Template) → Request
  approving marking_reviewed : (now firm user id : ℕ) → Request
  sending : (now firm user attempt_id id : ℕ) (media : Option Text) → Request
  calling_back : List WebhookStatusEvent → Request

module _ (settings : Settings) (render : ℕ → ℕ → Option Text)
    (send_template : List Call → Message → Reply) where
  unfoldable pub serve : Request → Store → Served
  serve (creating_report new_id firm user run t) s = create_report_request new_id firm user run t s
  serve (creating_chase new_id firm user result t) s =
      create_chase_request new_id firm user result t s
  serve (approving now firm user id) s = approve now firm user id s
  serve (marking_reviewed now firm user id) s = mark_near_miss_reviewed now firm user id s
  serve (sending now firm user attempt_id id media) s =
      send settings render send_template now firm user attempt_id id media s
  serve (calling_back evs) s = apply_webhook_events evs s

  unfoldable pub serve_all : List Request → Store → Store
  serve_all [] s = s
  serve_all (q ∷ qs) s = serve_all qs (serve q s).store
