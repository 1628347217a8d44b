-- ===== src/Comio2/Waits.antt =====
-- src/interfaces/type_001/comio2.c: the reply to a command is that of its own number.
use mea_edomus_lite.Common.{
  ℕ, ◌≤◌, ◌<◌, ◌≡◌, refl, ap, ◌∙◌, Bool, true, false, none, List, [], ◌∷◌, ◌++◌, ◌==◌, ◌||◌,
  if◌then◌else◌, leb, length, arith, ◌⊎◌, inl, inr, All, le→leb, ==_refl,
}
use mea_edomus_lite.Comio2.{Elem, Ad, max_data_size, get_frame_data_id, next_id, age}
use mea_edomus_lite.Comio2.Replies.{
  err_sys, Scanned, found, found_error, not_found, uninitialised, behind_elem, for_me, of_number,
  scan, Wait, arrived, wait_failed, Reply, reply, refused, no_reply, undefined_reply, on_scanned,
  searched, is_empty, on_wait, rounds, nb_retry, Line, guarded, on_written, passed,
  cmd_send_and_wait_resp,
}

-- A response with a number, without an error and in time, that is one of some elements.
abbrev pub Answers : (Elem → Type 0) → ℕ → List ℕ → Type 0
Answers P id resp =
    (e : Elem) × (P e
      × ((e.frame ≡ id ∷ resp) × ((e.comio2_err ≡ 0) × ((now : ℕ) × (age now e ≤ 10)))))

ScanAnswers : (Elem → Type 0) → ℕ → Scanned → Type 0
ScanAnswers P id (found resp queue) = Answers P id resp
ScanAnswers P id (found_error err queue) = Unit
ScanAnswers P id not_found = Unit
ScanAnswers P id uninitialised = Unit

ReplyAnswers : (Elem → Type 0) → ℕ → Reply → Type 0
ReplyAnswers P id (reply resp) = Answers P id resp
ReplyAnswers P id (refused err) = Unit
ReplyAnswers P id no_reply = Unit
ReplyAnswers P id undefined_reply = Unit

abbrev pub Arrives : (Elem → Type 0) → Wait → Type 0
Arrives P (arrived elems) = All P elems
Arrives P wait_failed = Unit

-- Responses of other numbers.
abbrev pub Others : ℕ → List Elem → Type 0
Others id queue =
    All (λ e. (c : ℕ) × ((bytes : List ℕ) × ((e.frame ≡ c ∷ bytes) × ((c == id) ≡ false)))) queue

scan-first :
    (id now : ℕ) (before after : List Elem) (e : Elem) (resp : List ℕ)
    → Others id before
    → e.frame ≡ id ∷ resp
    → e.comio2_err ≡ 0
    → age now e ≤ 10
    → scan id now (before ++ e ∷ after) ≡ found resp (before ++ after)
unfolding scan of_number behind_elem for_me
scan-first id now [] after e resp ho hf he ha =
    rw (hf, ==_refl id, he, le→leb (age now e) 10 ha) refl
scan-first id now (o ∷ before) after e resp ((c, (bytes, (hf, hc))), ho) hf2 he ha =
    rw (hf, hc, scan-first id now before after e resp ho hf2 he ha) refl

searched-found :
    (k : Bool → Ad → Reply × Ad) (id now : ℕ) (notfound : Bool) (ad : Ad) (queue rest : List Elem)
    (resp : List ℕ)
    → scan id now queue ≡ found resp rest
    → searched k id now notfound ad queue ≡ (reply resp, record ad { queue = rest })
unfolding searched on_scanned scan
searched-found k id now notfound ad [] rest resp h = cc
searched-found k id now notfound ad (e ∷ queue) rest resp h = ap (on_scanned (k true) ad) h

is_empty-elem : (before after : List Elem) (e : Elem) → is_empty (before ++ e ∷ after) ≡ false
unfolding is_empty
is_empty-elem [] after e = refl
is_empty-elem (o ∷ before) after e = refl

-- Where the responses of the first round are, in the queue or in what comes while it is empty.
abbrev pub FirstRound : Line → Ad → List Elem → Type 0
FirstRound line ad queue = (ad.queue ≡ queue) ⊎ ((ad.queue ≡ []) × (line.waits 4 ≡ arrived queue))

rounds-first :
    (line : Line) (ad : Ad) (id : ℕ) (before after : List Elem) (e : Elem) (resp : List ℕ)
    → FirstRound line ad (before ++ e ∷ after)
    → scan id (line.clock 4) (before ++ e ∷ after) ≡ found resp (before ++ after)
    → rounds line.waits line.clock id nb_retry false ad
      ≡ (reply resp, record ad { queue = before ++ after })
unfolding rounds on_wait is_empty
rounds-first line ad id before after e resp (inl h) hs =
    let k = rounds line.waits line.clock id 4 in
    let now = line.clock 4 in
    let queue = before ++ e ∷ after in
    ap
      (λ b.
        if b || false
        then on_wait k id now false ad (line.waits 4)
        else searched k id now false ad ad.queue)
      (ap is_empty h ∙ is_empty-elem before after e)
    ∙ (ap (searched k id now false ad) h
        ∙ searched-found k id now false ad queue (before ++ after) resp hs)
rounds-first line ad id before after e resp (inr (h, hw)) hs =
    let k = rounds line.waits line.clock id 4 in
    let now = line.clock 4 in
    let queue = before ++ e ∷ after in
    ap
      (λ b.
        if b || false
        then on_wait k id now false ad (line.waits 4)
        else searched k id now false ad ad.queue)
      (ap is_empty h)
    ∙ (ap (on_wait k id now false ad) hw
        ∙ (ap (λ q. searched k id now false (record ad { queue = q ++ queue }) (q ++ queue)) h
            ∙ searched-found k id now false (record ad { queue = queue }) queue (before ++ after)
                resp hs))

guarded-none :
    (line : Line) (n : ℕ) (ad : Ad)
    → ad.signal_flag ≡ false
    → n < max_data_size
    → line.in_callback ≡ false
    → guarded line n ad ≡ none
unfolding guarded
guarded-none line n ad h1 h2 h3 = rw (h1, not_long n h2, h3) refl
  where
    not_long : (m : ℕ) → m < max_data_size → leb max_data_size m ≡ false
    not_long m h = ground (arith, h)

-- Where comio2_cmdSendAndWaitResp passes its guards and the frame is written, the first round
-- finds the first response with the command's number, in the queue or, if that is empty, in what
-- arrives during the first wait; if that has no error and is at most ten seconds old, the call
-- returns its bytes and takes just that response out of the queue, and the next command gets the
-- next number. Every response in front of it has a number of its own.
pub cmd_send_and_wait_resp-first :
    (line : Line) (cmd : ℕ) (bytes : List ℕ) (ad : Ad) (before after : List Elem) (e : Elem)
    (resp : List ℕ)
    → ad.signal_flag ≡ false
    → length bytes < max_data_size
    → line.in_callback ≡ false
    → line.write_ok ≡ true
    → FirstRound line ad (before ++ e ∷ after)
    → Others ad.frame_id before
    → e.frame ≡ ad.frame_id ∷ resp
    → e.comio2_err ≡ 0
    → age (line.clock 4) e ≤ 10
    → cmd_send_and_wait_resp line cmd bytes ad
      ≡ (reply resp, record ad { frame_id = next_id ad.frame_id; queue = before ++ after })
unfolding cmd_send_and_wait_resp passed on_written get_frame_data_id
cmd_send_and_wait_resp-first line cmd bytes ad before after e resp h1 h2 h3 h4 hq ho hf he ha =
    let k : Ad → Reply × Ad =
      λ a. on_written line a.frame_id (record a { frame_id = next_id a.frame_id }) in
    let ad2 = record ad { frame_id = next_id ad.frame_id } in
    ap (λ o. passed o k ad) (guarded-none line (length bytes) ad h1 h2 h3)
    ∙ (ap
          (λ b.
            if b
            then rounds line.waits line.clock ad.frame_id nb_retry false ad2
            else (refused err_sys, ad2))
          h4
        ∙ rounds-first line ad2 ad.frame_id before after e resp hq
            (scan-first ad.frame_id (line.clock 4) before after e resp ho hf he ha))
