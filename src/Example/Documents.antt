-- ===== src/Example/Documents.antt =====
-- The messages of the program in the serialisation of the examples.
use agent_mqtt_chat.Base.{ℕ, zero, suc, ℤ, pos, negsuc, ◌≡◌, refl}
use agent_mqtt_chat.Wire.Types.{
  Wrapper, Inner, EncInfo, SignedGrant, Receipt, ReceiptStatus, delivered, read, MsgKind, message,
  command, query, result, ack, error, grant, receipt,
}
use agent_mqtt_chat.Example.Codec.{Codec, text, nat, option, ◌&◌, via}

abbrev kind_number : MsgKind → ℕ
kind_number message = 0
kind_number command = 1
kind_number query = 2
kind_number result = 3
kind_number ack = 4
kind_number error = 5
kind_number grant = 6
kind_number receipt = 7

abbrev number_kind : ℕ → MsgKind
number_kind zero = message
number_kind (suc zero) = command
number_kind (suc (suc zero)) = query
number_kind (suc (suc (suc zero))) = result
number_kind (suc (suc (suc (suc zero)))) = ack
number_kind (suc (suc (suc (suc (suc zero))))) = error
number_kind (suc (suc (suc (suc (suc (suc zero)))))) = grant
number_kind _ = receipt

pub number_kind-kind_number : (k : MsgKind) → number_kind (kind_number k) ≡ k
number_kind-kind_number message = refl
number_kind-kind_number command = refl
number_kind-kind_number query = refl
number_kind-kind_number result = refl
number_kind-kind_number ack = refl
number_kind-kind_number error = refl
number_kind-kind_number grant = refl
number_kind-kind_number receipt = refl

abbrev kind : Codec MsgKind
kind = via nat kind_number number_kind number_kind-kind_number

abbrev status_number : ReceiptStatus → ℕ
status_number delivered = 0
status_number read = 1

abbrev number_status : ℕ → ReceiptStatus
number_status zero = delivered
number_status _ = read

pub number_status-status_number : (k : ReceiptStatus) → number_status (status_number k) ≡ k
number_status-status_number delivered = refl
number_status-status_number read = refl

abbrev status : Codec ReceiptStatus
status = via nat status_number number_status number_status-status_number

abbrev int_parts : ℤ → ℕ × ℕ
int_parts (pos n) = (0, n)
int_parts (negsuc n) = (1, n)

abbrev parts_int : ℕ × ℕ → ℤ
parts_int (zero, n) = pos n
parts_int (suc _, n) = negsuc n

pub parts_int-int_parts : (z : ℤ) → parts_int (int_parts z) ≡ z
parts_int-int_parts (pos n) = refl
parts_int-int_parts (negsuc n) = refl

abbrev pub int : Codec ℤ
int = via (nat & nat) int_parts parts_int parts_int-int_parts

abbrev pub wrapper : Codec Wrapper
wrapper =
    via (nat & text & option text & text & option text)
      (λ w. (w.v, (w.alg, (w.kid, (w.msg, w.sig)))))
      (λ (v, (alg, (kid, (msg, sig)))). record {
        v = v;
        alg = alg;
        kid = kid;
        msg = msg;
        sig = sig;
      })
      (λ w. refl)

abbrev enc_info : Codec EncInfo
enc_info =
    via (text & text & text & text & text)
      (λ e. (e.alg, (e.kem_ct, (e.recipient_kid, (e.nonce, e.ptype)))))
      (λ (alg, (kem_ct, (recipient_kid, (nonce, ptype)))). record {
        alg = alg;
        kem_ct = kem_ct;
        recipient_kid = recipient_kid;
        nonce = nonce;
        ptype = ptype;
      })
      (λ e. refl)

abbrev pub signed_grant : Codec SignedGrant
signed_grant =
    via (text & text & text & text) (λ g. (g.alg, (g.authority_kid, (g.grant, g.sig))))
      (λ (alg, (authority_kid, (body, sig))). record {
        alg = alg;
        authority_kid = authority_kid;
        grant = body;
        sig = sig;
      })
      (λ g. refl)

abbrev receipt_doc : Codec Receipt
receipt_doc =
    via (text & status) (λ r. (r.ref_id, r.status))
      (λ (ref_id, status). record { ref_id = ref_id; status = status }) (λ r. refl)

abbrev pub inner : Codec Inner
inner =
    via
      (text
        & nat
        & text
        & text
        & text
        & text
        & text
        & option text
        & text
        & kind
        & option text
        & option text
        & option enc_info
        & option signed_grant
        & option receipt_doc)
      (λ m. (
        m.id,
        (
          m.v,
          (
            m.from,
            (
              m.to,
              (
                m.ts,
                (
                  m.nonce,
                  (
                    m.ctype,
                    (
                      m.in_reply_to,
                      (
                        m.body,
                        (m.kind, (m.correlation_id, (m.supersedes, (m.enc, (m.grant, m.receipt))))),
                      ),
                    ),
                  ),
                ),
              ),
            ),
          ),
        ),
      ))
      (λ (
        id,
        (
          v,
          (
            from,
            (
              to,
              (
                ts,
                (
                  nonce,
                  (
                    ctype,
                    (
                      in_reply_to,
                      (body, (kind, (correlation_id, (supersedes, (enc, (sg, rcpt)))))),
                    ),
                  ),
                ),
              ),
            ),
          ),
        ),
      ).
        record {
          id = id;
          v = v;
          from = from;
          to = to;
          ts = ts;
          nonce = nonce;
          ctype = ctype;
          in_reply_to = in_reply_to;
          body = body;
          kind = kind;
          correlation_id = correlation_id;
          supersedes = supersedes;
          enc = enc;
          grant = sg;
          receipt = rcpt;
        })
      (λ m. refl)
