-- ===== src/HttpConn/Answer.antt =====
-- The head of an answer, and the parts that are to be sent (webServer/code/http/httpconn.cpp and
-- httpresponse.cpp).
use embedded_linux_iot_gatew.Prelude.{
  ℕ, ◌<◌, ◌≡◌, refl, ap, ◌∙◌, sym, subst, Bool, lt→ltb, some, [], ◌∷◌, ◌++◌, length, length-append,
  if◌then◌else◌, Text, arith, append_assoc,
}
use embedded_linux_iot_gatew.LogMng.Name.{digits}
use embedded_linux_iot_gatew.HttpResponse.{
  Response, get_file_type, to_string, length_line, header_text, http_version, connection_head,
  keep_alive_head, close_head, type_head, ok_status, not_found, line_end, state_line, code_text,
  code_status,
}
use embedded_linux_iot_gatew.HttpResponse.Serve.{with_file}
use embedded_linux_iot_gatew.HttpConn.{Conn, set_file, bytes_left, offer, set_iov}
use embedded_linux_iot_gatew.HttpConn.Advance.{IsTied}

abbrev pub two_hundred : Text
two_hundred = b'2' ∷ b'0' ∷ b'0' ∷ 32 ∷ []

abbrev pub four_zero_four : Text
four_zero_four = b'4' ∷ b'0' ∷ b'4' ∷ 32 ∷ []

-- The head of an answer: its code and status, whether the connection is kept, and the type and the
-- size of the page.
abbrev pub page_head : (status : Text) → (keeps : Bool) → (path : Text) → (size : ℕ) → Text
page_head status keeps path size =
    http_version
    ++ (status
        ++ (line_end
            ++ (connection_head
                ++ ((if keeps then keep_alive_head else close_head)
                    ++ (type_head ++ (get_file_type path ++ (line_end ++ length_line size)))))))

-- `d` offers the text, of which the buffer holds the first part.
pub record Offers (text : Text) (d : Conn) : Type 0 where
  pub whole : offer d ≡ text
  pub both : bytes_left d ≡ length text
  pub tied : IsTied d

set_iov-file :
    (c : Conn) (r : Response) (text content : Text)
    → r.file ≡ some content
    → 0 < r.file_stat.size
    → set_iov c r text ≡ record c {
      iov_cnt = 2;
      iov0 = c.write_buff ++ text;
      iov1 = content;
      write_buff = c.write_buff ++ text;
      response = r;
    }
unfolding set_iov
set_iov-file c r text content mapped full =
    let buff : Text = c.write_buff ++ text in
    let d : Conn = record c { write_buff = buff; iov0 = buff; iov_cnt = 1; response = r } in
    ap (λ b. if b then set_file d r.file else d) (lt→ltb 0 r.file_stat.size full)
    ∙ ap (set_file d) mapped

pub set_iov-Offers :
    (c : Conn) (r : Response) (text content : Text)
    → c.write_buff ≡ []
    → r.file ≡ some content
    → 0 < r.file_stat.size
    → Offers (text ++ content) (set_iov c r text)
unfolding offer
set_iov-Offers c r text content empty mapped full =
    let buff : c.write_buff ++ text ≡ text = ap (λ t. t ++ text) empty in
    subst (Offers (text ++ content)) (sym (set_iov-file c r text content mapped full)) (record {
      whole = ap (λ t. t ++ content) buff;
      both = omega (arith, ap length buff, length-append text content);
      tied = refl;
    })

header_text-page :
    (r : Response) (size : ℕ)
    → header_text r ++ length_line size
      ≡ connection_head
        ++ ((if r.keep_alive then keep_alive_head else close_head)
            ++ (type_head ++ (get_file_type r.path ++ (line_end ++ length_line size))))
unfolding header_text
header_text-page r size =
    let keeps : Text = if r.keep_alive then keep_alive_head else close_head in
    let type : Text = get_file_type r.path in
    ap (λ t. connection_head ++ t)
      (append_assoc keeps (type_head ++ (type ++ line_end)) (length_line size)
        ∙ ap (λ t. keeps ++ (type_head ++ t)) (append_assoc type line_end (length_line size)))

pub page_head-ok :
    (r : Response) (content : Text)
    → r.code ≡ some 200
    → (with_file r content).1
      ≡ page_head (two_hundred ++ ok_status) r.keep_alive r.path r.file_stat.size
unfolding state_line code_text code_status to_string digits
page_head-ok r content ok =
    ap (λ c. state_line c ++ (header_text r ++ length_line r.file_stat.size)) ok
    ∙ ap (λ t. state_line (some 200) ++ t) (header_text-page r r.file_stat.size)

pub page_head-missing :
    (r : Response) (content : Text)
    → r.code ≡ some 404
    → (with_file r content).1
      ≡ page_head (four_zero_four ++ not_found) r.keep_alive r.path r.file_stat.size
unfolding state_line code_text code_status to_string digits
page_head-missing r content missing =
    ap (λ c. state_line c ++ (header_text r ++ length_line r.file_stat.size)) missing
    ∙ ap (λ t. state_line (some 404) ++ t) (header_text-page r r.file_stat.size)
