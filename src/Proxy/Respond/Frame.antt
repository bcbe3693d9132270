-- ===== src/Proxy/Respond/Frame.antt =====
-- The length that a response states, and what is never touched.
use localhoist.Common.{
  ◌≡◌, ◌≢◌, ◌⊎◌, ◌↔◌, refl, ◌∙◌, Bool, true, false, not, ◌&&◌, ◌||◌, Option, none, some, [], ◌∷◌,
  Bytes, codes, equal, equal_iff, equal_ne, Bool-cases, inl, inr, arith, if◌then◌else◌, length,
  ◌==◌,
}
use localhoist.Common.Text.{itoa, contains}
use localhoist.Common.Http.{get_header}
use localhoist.Proxy.{Name, reverb, vite, Config, has_target}
use localhoist.Proxy.Respond.{
  Response, content_length, swap_body, fix, fix_module, fix_page, rewrite_response, hot_origin,
  public_origin, public_hostname, is_vite, is_app,
}
use localhoist.Rewrite.{vite_client, reverb_env, html}

-- The response has a body, and both places that state its length state the body's.
abbrev pub IsFramed : Response → Type 0
IsFramed resp =
    (body : Bytes) × (resp.body ≡ some body)
    × (resp.length ≡ some (length body))
    × (get_header resp.header content_length ≡ itoa (length body))

swap_body-IsFramed :
    (resp : Response) (fn : Bytes → Bytes × Bool) → IsFramed resp → IsFramed (swap_body resp fn)
unfolding swap_body equal
swap_body-IsFramed resp fn (body, e, _, _) = rw e ((fn body).0, refl, refl, refl)

if-holds : (P : Response → Type 0) (b : Bool) (x y : Response) → P x → P y → P (if b then x else y)
if-holds P true x y px py = px
if-holds P false x y px py = py

-- What holds of a response, and of it with any body swapped in, holds of what is sent on.
module _ (P : Response → Type 0) (resp : Response) (same : P resp)
    (swapped : (fn : Bytes → Bytes × Bool) → P (swap_body resp fn)) where
  fix-holds :
      (cfg : Config) (files : Bytes → Option Bytes) (name : Name) → P (fix cfg files name resp)
  unfolding fix fix_page fix_module
  fix-holds cfg files name =
      if-holds P (is_vite name && equal resp.request.path (codes "/@vite/client")) _ _
        (swapped vite_client)
        (if-holds P
          (is_vite name
            && (has_target cfg.reverb
                && contains (get_header resp.header (codes "Content-Type")) (codes "javascript")))
          _ _
          (if-holds P (equal (public_hostname resp.request) []) _ _ same
            (swapped (λ body. reverb_env body (public_hostname resp.request))))
          (if-holds P
            (is_app name
              && contains (get_header resp.header (codes "Content-Type")) (codes "text/html"))
            _ _
            (if-holds P (equal (hot_origin cfg files) [] || equal (public_origin resp.request) []) _
              _ same
              (swapped (λ body. html body (hot_origin cfg files) (public_origin resp.request))))
            same))

  rewrite_response-holds :
      (cfg : Config) (files : Bytes → Option Bytes) (name : Name)
      → P (rewrite_response cfg files name resp)
  unfolding rewrite_response
  rewrite_response-holds cfg files name =
      if-holds P
        (not (resp.status == 200)
          || not (equal (get_header resp.header (codes "Content-Encoding")) []))
        _ _ same (fix-holds cfg files name)

-- A response whose stated length is that of its body still is one behind the fixes, whatever they
-- have put into the body.
pub rewrite_response-IsFramed :
    (cfg : Config) (files : Bytes → Option Bytes) (name : Name) (resp : Response)
    → IsFramed resp
    → IsFramed (rewrite_response cfg files name resp)
rewrite_response-IsFramed cfg files name resp h =
    rewrite_response-holds IsFramed resp h (λ fn. swap_body-IsFramed resp fn h) cfg files name

-- All that the fixes leave as it is.
pub record IsKept (before behind : Response) : Type 0 where
  pub status : behind.status ≡ before.status
  pub headers : (q : Bytes) → equal q content_length ≡ false → behind.header q ≡ before.header q
  pub request : behind.request ≡ before.request

swap_body-IsKept :
    (resp : Response) (fn : Bytes → Bytes × Bool) (body : Option Bytes)
    → resp.body ≡ body
    → IsKept resp (swap_body resp fn)
unfolding swap_body
swap_body-IsKept resp fn none e =
    rw (e, swap_body) (record { status = refl; headers = λ q h. refl; request = refl })
swap_body-IsKept resp fn (some b) e =
    rw (e, swap_body) (record { status = refl; headers = λ q h. rw h refl; request = refl })

fix-reverb :
    (cfg : Config) (files : Bytes → Option Bytes) (resp : Response)
    → fix cfg files reverb resp ≡ resp
unfolding fix
fix-reverb cfg files resp = refl

-- Answers of Reverb, answers with another status than 200 and answers that are encoded are sent on
-- as they are.
pub rewrite_response_untouched :
    (cfg : Config) (files : Bytes → Option Bytes) (name : Name) (resp : Response)
    → (name ≡ reverb)
      ⊎ (resp.status ≢ 200)
      ⊎ (get_header resp.header (codes "Content-Encoding") ≢ [])
    → rewrite_response cfg files name resp ≡ resp
unfolding rewrite_response
rewrite_response_untouched cfg files name resp (inl e) =
    rw (e, fix-reverb cfg files resp)
      (if-holds (λ r. r ≡ resp)
        (not (resp.status == 200)
          || not (equal (get_header resp.header (codes "Content-Encoding")) []))
        resp resp refl refl)
rewrite_response_untouched cfg files name resp (inr (inl e)) =
    let other : (resp.status == 200) ≡ false = ground arith in rw other refl
rewrite_response_untouched cfg files name resp (inr (inr e)) =
    rw (equal_ne (get_header resp.header (codes "Content-Encoding")) [] e)
      (elim (Bool-cases (resp.status == 200)) [ inl good ↦ rw good refl | inr bad ↦ rw bad refl ])

-- The fixes change the body and the length alone: the status, every other header and the request
-- stay.
pub rewrite_response-IsKept :
    (cfg : Config) (files : Bytes → Option Bytes) (name : Name) (resp : Response)
    → IsKept resp (rewrite_response cfg files name resp)
rewrite_response-IsKept cfg files name resp =
    rewrite_response-holds (IsKept resp) resp
      (record { status = refl; headers = λ q h. refl; request = refl })
      (λ fn. swap_body-IsKept resp fn resp.body refl) cfg files name

client_swapped :
    (cfg : Config) (files : Bytes → Option Bytes) (resp : Response)
    → resp.status ≡ 200
    → get_header resp.header (codes "Content-Encoding") ≡ []
    → resp.request.path ≡ codes "/@vite/client"
    → rewrite_response cfg files vite resp ≡ swap_body resp vite_client
unfolding rewrite_response fix
client_swapped cfg files resp success plain client = ground (
  arith,
  equal_iff resp.request.path (codes "/@vite/client"),
  equal_iff (get_header resp.header (codes "Content-Encoding")) [],
)

swap_body_unread :
    (resp : Response) (fn : Bytes → Bytes × Bool)
    → resp.body ≡ none
    → swap_body resp fn ≡ record resp { body = some [] }
unfolding swap_body
swap_body_unread resp fn failed = ground arith

unequal : (s : Bytes) → s ≡ [] → equal s [] ≡ false → ⊥
unfolding equal
unequal [] e h = cc
unequal (c ∷ s) e h = cc

IsFramed-iff :
    (resp : Response)
    → IsFramed (record resp { body = some [] })
      ↔ ((resp.length ≡ some 0) × (get_header resp.header content_length ≡ itoa 0))
IsFramed-iff resp =
    (λ (body, e, len, header). stated body e len header, λ (len, header). ([], refl, len, header))
  where
    stated :
        (body : Bytes)
        → some [] ≡ some body
        → resp.length ≡ some (length body)
        → get_header resp.header content_length ≡ itoa (length body)
        → (resp.length ≡ some 0) × (get_header resp.header content_length ≡ itoa 0)
    stated [] same len header = (len, header)
    stated (c ∷ body) same len header = cc

-- The answer to /@vite/client where its body cannot be read. With the status 200 and without an
-- encoding an empty body is sent on under all that Vite stated, so that the stated length is right
-- exactly if Vite stated 0 in both places: neither an unknown length nor any other one is. With
-- another status or with an encoding the answer is left as it was.
pub rewrite_response_unread :
    (cfg : Config) (files : Bytes → Option Bytes) (resp : Response)
    → resp.request.path ≡ codes "/@vite/client"
    → resp.body ≡ none
    → ((resp.status ≡ 200)
        × (get_header resp.header (codes "Content-Encoding") ≡ [])
        × (rewrite_response cfg files vite resp ≡ record resp { body = some [] })
        × (IsFramed (rewrite_response cfg files vite resp)
            ↔ ((resp.length ≡ some 0) × (get_header resp.header content_length ≡ itoa 0))))
      ⊎ (((resp.status ≢ 200) ⊎ (get_header resp.header (codes "Content-Encoding") ≢ []))
          × (rewrite_response cfg files vite resp ≡ resp))
rewrite_response_unread cfg files resp client failed = elim (Bool-cases (resp.status == 200)) [
  | inr other ↦
      let bad : resp.status ≢ 200 = λ e. ground arith in
      inr (inl bad, rewrite_response_untouched cfg files vite resp (inr (inl bad)))
  | inl success ↦ elim (Bool-cases (equal (get_header resp.header (codes "Content-Encoding")) [])) [
    | inr other ↦
        let bad : get_header resp.header (codes "Content-Encoding") ≢ [] = λ e. unequal _ e other in
        inr (inr bad, rewrite_response_untouched cfg files vite resp (inr (inr bad)))
    | inl plain ↦ emptied (ground arith) ((equal_iff _ []).0 plain)
  ]
]
  where
    emptied :
        (success : resp.status ≡ 200)
        → (plain : get_header resp.header (codes "Content-Encoding") ≡ [])
        → ((resp.status ≡ 200)
            × (get_header resp.header (codes "Content-Encoding") ≡ [])
            × (rewrite_response cfg files vite resp ≡ record resp { body = some [] })
            × (IsFramed (rewrite_response cfg files vite resp)
                ↔ ((resp.length ≡ some 0) × (get_header resp.header content_length ≡ itoa 0))))
          ⊎ (((resp.status ≢ 200) ⊎ (get_header resp.header (codes "Content-Encoding") ≢ []))
              × (rewrite_response cfg files vite resp ≡ resp))
    emptied success plain =
        let e =
          client_swapped cfg files resp success plain client
          ∙ swap_body_unread resp vite_client failed in
        inl (success, plain, e, rw e (IsFramed-iff resp))
