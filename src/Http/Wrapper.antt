-- ===== src/Http/Wrapper.antt =====
-- `CHttpWrapper`: the request, and one chance to respond to it. The message is shared: what the
-- strand later sends is the message as it is then.
use websockets.Prelude.{
  ℕ, zero, suc, ◌+◌, ◌≡◌, refl, Bool, true, false, not, ◌||◌, List, [], ◌∷◌, ◌++◌, Option, none,
  some, if◌then◌else◌, subst,
}
use websockets.Text.{codes}
use websockets.Http.{HttpMsg, http_error_message}

-- `http_msg` is what the pointer points to now, `none` for a null pointer; `reply_set` says whether
-- there is a reply function.
pub record HttpWrapper : Type 0 where
  pub http_msg : Option HttpMsg
  pub reply_set : Bool
  pub response_sent : Bool

pub data Effect : Type 0 where
  -- `mReplyFn(mHttpMsg)`, which posts the pointer to the strand
  reply_with_pointer : Effect
  log_replied_twice : Effect

-- `Reply`
pub reply : HttpWrapper → HttpWrapper × List Effect
reply w =
    if w.response_sent
    then (w, log_replied_twice ∷ [])
    else (record w { response_sent = true }, (if w.reply_set then reply_with_pointer ∷ [] else []))

-- What the destructor makes of the message.
pub bad_request : HttpMsg → HttpMsg
unfolding http_error_message
bad_request msg = record msg {
  response_code = 400;
  reason = codes "Bad Request";
  context_type = codes "application/json";
  body = http_error_message (codes "Bad Request") (codes "The request was not handled");
}

-- `~CHttpWrapper`
pub destroy : HttpWrapper → HttpWrapper × List Effect
unfolding bad_request
destroy w = elim w.http_msg [
  | none ↦ (w, [])
  | some msg ↦
      if w.response_sent || not w.reply_set
      then (w, [])
      else (record w { http_msg = some (bad_request msg) }, reply_with_pointer ∷ [])
]

-- The wrapper with what its replies have posted to the strand, and what the strand has sent.
pub record Exchange : Type 0 where
  pub wrapper : HttpWrapper
  pub posted : ℕ
  pub sent : List HttpMsg

-- What happens to the message: it is changed, by whoever holds the pointer; a posted
-- `SendResponse` runs on the strand, and reads it.
pub data Touch : Type 0 where
  edits : (HttpMsg → HttpMsg) → Touch
  runs : Touch

-- What happens while the handler holds the wrapper.
pub data Use : Type 0 where
  replies : Use
  touches : Touch → Use

abbrev edit : (HttpMsg → HttpMsg) → Option HttpMsg → Option HttpMsg
edit f none = none
edit f (some msg) = some (f msg)

abbrev to_list : Option HttpMsg → List HttpMsg
to_list none = []
to_list (some msg) = msg ∷ []

touch : Exchange → Touch → Exchange
touch x (edits f) = record x { wrapper = record x.wrapper { http_msg = edit f x.wrapper.http_msg } }
touch x runs = elim x.posted [
  | zero ↦ x
  | suc n ↦ record x { posted = n; sent = x.sent ++ to_list x.wrapper.http_msg }
]

abbrev num_posted : List Effect → ℕ
num_posted [] = 0
num_posted (reply_with_pointer ∷ rest) = suc (num_posted rest)
num_posted (log_replied_twice ∷ rest) = num_posted rest

abbrev post_all : Exchange → HttpWrapper × List Effect → Exchange
post_all x (w, effects) = record x { wrapper = w; posted = x.posted + num_posted effects }

touch_all : Exchange → List Touch → Exchange
unfolding touch
touch_all x [] = x
touch_all x (t ∷ rest) = touch_all (touch x t) rest

-- The uses in their order, the destructor, and what happens to the message after it.
pub lifetime : Exchange → List Use → List Touch → Exchange
unfolding touch reply destroy touch_all
lifetime x [] later = touch_all (post_all x (destroy x.wrapper)) later
lifetime x (replies ∷ uses) later = lifetime (post_all x (reply x.wrapper)) uses later
lifetime x (touches t ∷ uses) later = lifetime (touch x t) uses later

-- A wrapper with a message and a reply function, as the server makes it.
abbrev pub fresh_wrapper : HttpMsg → HttpWrapper
fresh_wrapper msg = record { http_msg = some msg; reply_set = true; response_sent = false }

abbrev pub fresh_exchange : HttpMsg → Exchange
fresh_exchange msg = record { wrapper = fresh_wrapper msg; posted = 0; sent = [] }

-- The message that tells the client of a request that was not handled.
abbrev pub not_handled : HttpMsg → HttpMsg
not_handled msg = record msg {
  response_code = 400;
  reason = codes "Bad Request";
  context_type = codes "application/json";
  body =
      codes
        "{\"message\": { \"shortMessage\": \"Bad Request\", \"longMessage\": \"The request was not handled\"}}";
}

-- What is sent of a message that was replied: it as it is when the strand runs, if it has run.
abbrev pub sent_later : HttpMsg → List Touch → Option HttpMsg
sent_later msg [] = none
sent_later msg (edits f ∷ rest) = sent_later (f msg) rest
sent_later msg (runs ∷ rest) = some msg

abbrev pub sent_replied : HttpMsg → List Use → List Touch → Option HttpMsg
sent_replied msg [] later = sent_later msg later
sent_replied msg (replies ∷ uses) later = sent_replied msg uses later
sent_replied msg (touches (edits f) ∷ uses) later = sent_replied (f msg) uses later
sent_replied msg (touches runs ∷ uses) later = some msg

-- The first reply counts, or the destructor, which makes the message a 400.
abbrev pub answer : HttpMsg → List Use → List Touch → Option HttpMsg
answer msg [] later = sent_later (not_handled msg) later
answer msg (replies ∷ uses) later = sent_replied msg uses later
answer msg (touches (edits f) ∷ uses) later = answer (f msg) uses later
answer msg (touches runs ∷ uses) later = answer msg uses later

-- The uses with the chances that the strand has to run between them, one for each `true`.
abbrev pub interleave : List Bool → List Use → List Use
interleave [] uses = uses
interleave (true ∷ chances) uses = touches runs ∷ interleave chances uses
interleave (false ∷ chances) [] = interleave chances []
interleave (false ∷ chances) (use_ ∷ uses) = use_ ∷ interleave chances uses

-- The response is the one that was to be, and the rest of it is still posted.
abbrev pub Delivers : Exchange → Option HttpMsg → Type 0
Delivers x none = (x.sent ≡ []) × (x.posted ≡ 1)
Delivers x (some msg) = (x.sent ≡ msg ∷ []) × (x.posted ≡ 0)

-- An exchange whose wrapper has a message and a reply function.
abbrev at : HttpMsg → Bool → ℕ → List HttpMsg → Exchange
at msg replied posted sent = record {
  wrapper = record { http_msg = some msg; reply_set = true; response_sent = replied };
  posted = posted;
  sent = sent;
}

-- Once the response is sent no touch sends anything.
touch_all-after :
    (msg m : HttpMsg) (replied : Bool) (later : List Touch)
    → Delivers (touch_all (at m replied 0 (msg ∷ [])) later) (some msg)
unfolding touch_all touch
touch_all-after msg m replied [] = (refl, refl)
touch_all-after msg m replied (edits f ∷ later) = touch_all-after msg (f m) replied later
touch_all-after msg m replied (runs ∷ later) = touch_all-after msg m replied later

touch_all-posted :
    (msg : HttpMsg) (replied : Bool) (later : List Touch)
    → Delivers (touch_all (at msg replied 1 []) later) (sent_later msg later)
unfolding touch_all touch
touch_all-posted msg replied [] = (refl, refl)
touch_all-posted msg replied (edits f ∷ later) = touch_all-posted (f msg) replied later
touch_all-posted msg replied (runs ∷ later) = touch_all-after msg msg replied later

lifetime-after :
    (msg m : HttpMsg) (uses : List Use) (later : List Touch)
    → Delivers (lifetime (at m true 0 (msg ∷ [])) uses later) (some msg)
unfolding lifetime reply destroy touch
lifetime-after msg m [] later = touch_all-after msg m true later
lifetime-after msg m (replies ∷ uses) later = lifetime-after msg m uses later
lifetime-after msg m (touches (edits f) ∷ uses) later = lifetime-after msg (f m) uses later
lifetime-after msg m (touches runs ∷ uses) later = lifetime-after msg m uses later

lifetime-replied :
    (msg : HttpMsg) (uses : List Use) (later : List Touch)
    → Delivers (lifetime (at msg true 1 []) uses later) (sent_replied msg uses later)
unfolding lifetime reply destroy touch
lifetime-replied msg [] later = touch_all-posted msg true later
lifetime-replied msg (replies ∷ uses) later = lifetime-replied msg uses later
lifetime-replied msg (touches (edits f) ∷ uses) later = lifetime-replied (f msg) uses later
lifetime-replied msg (touches runs ∷ uses) later = lifetime-after msg msg uses later

bad_request_lem : (msg : HttpMsg) → bad_request msg ≡ not_handled msg
unfolding bad_request http_error_message
bad_request_lem msg = refl

-- However a handler uses its wrapper, changes the message before or after its replies and also when
-- the wrapper is gone, and whenever the strand runs: one response is posted. It is posted by the
-- first `Reply`, or else by the destructor, which makes the message a 400; and what is sent is the
-- message as it is when the strand runs, at most once.
pub Delivers-lifetime :
    (msg : HttpMsg) (uses : List Use) (later : List Touch)
    → Delivers (lifetime (fresh_exchange msg) uses later) (answer msg uses later)
unfolding lifetime reply destroy touch
Delivers-lifetime msg [] later =
    subst (λ m. Delivers (touch_all (at (bad_request msg) false 1 []) later) (sent_later m later))
      (bad_request_lem msg) (touch_all-posted (bad_request msg) false later)
Delivers-lifetime msg (replies ∷ uses) later = lifetime-replied msg uses later
Delivers-lifetime msg (touches (edits f) ∷ uses) later = Delivers-lifetime (f msg) uses later
Delivers-lifetime msg (touches runs ∷ uses) later = Delivers-lifetime msg uses later
