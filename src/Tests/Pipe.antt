-- ===== src/Tests/Pipe.antt =====
-- src/common/ipc/pipe/socket_base.cpp at concrete streams.
use mathlib.Core.List.{flatten}
use ocvsmd.Common.{
  ◌≡◌, ◌≢◌, refl, inl, inr, none, [], ◌∷◌, ◌++◌, arith, length, take, ◌⊎◌, ◌<◌, ◌+◌, sym, ◌∙◌,
}
use ocvsmd.Io.SocketBuffer
use ocvsmd.Io.SocketBuffer.{Payload, SocketBuffer, of_payload, bytes, prepend}
use ocvsmd.Io.Posix.{
  Incoming, chunk, fails, contents, received, posix_recv, contents-posix_recv, Outgoing, accepts,
  rejects, posix_send,
}
use ocvsmd.Ipc.Pipe.SocketBase.{
  init, header_bytes, header_size, receive_data, send, switch_to_payload,
}
use ocvsmd.Ipc.Pipe.SocketBase.Frames.{Keeps, frame, pending}
use ocvsmd.Ipc.Pipe.SocketBase.Receive.{receive_data-Keeps}
use ocvsmd.Ipc.Pipe.SocketBase.Rounds.{stream}
use ocvsmd.Ipc.Pipe.SocketBase.Stream.{Decodes, receive_all, receive_all-stream}
use ocvsmd.Ipc.Pipe.SocketBase.Send.{IsWilling, send-frame, send-receive_all, send_short_write}

abbrev hello : Payload
hello = 7 ∷ 8 ∷ []

-- One frame in three pieces, with an interrupted call and one that finds nothing yet.
abbrev cut : Incoming
cut =
    chunk 79 (67 ∷ 86 ∷ [])
    ∷ fails 4
    ∷ chunk 83 (2 ∷ 0 ∷ 0 ∷ 0 ∷ 7 ∷ [])
    ∷ fails 11
    ∷ chunk 8 []
    ∷ []

cut_frame : contents cut ≡ stream (hello ∷ [])
unfolding header_bytes
cut_frame = refl

received_payload : (receive_all 20 init cut).payloads ≡ hello ∷ []
unfolding receive_all receive_data posix_recv switch_to_payload
received_payload = refl

receive_all-stream_example : Decodes (hello ∷ []) (receive_all 20 init cut)
receive_all-stream_example =
    receive_all-stream (hello ∷ []) cut 20 (omega arith) (omega arith) (inl refl, (inr refl, tt))
      cut_frame (omega arith)

receive_data-Keeps_example :
    ((receive_data init cut).result ≢ none)
    ⊎ Keeps (pending init ++ contents cut) (receive_data init cut)
receive_data-Keeps_example =
    receive_data-Keeps init cut (omega arith, refl, omega arith) (omega arith)

contents-posix_recv_example :
    received (posix_recv 4 (fails 4 ∷ cut)).0 ++ contents (posix_recv 4 (fails 4 ∷ cut)).1
    ≡ contents cut
contents-posix_recv_example = contents-posix_recv 4 (fails 4 ∷ cut)

abbrev quiet : Outgoing
quiet = record { script = rejects 4 ∷ accepts 100 ∷ []; stream = [] }

hello-IsValid : SocketBuffer.IsValid (of_payload hello)
unfolding of_payload flatten
hello-IsValid = record { sized = refl; solid = omega arith }

send-frame_example :
    ((send quiet (of_payload hello)).result ≡ none)
    × ((send quiet (of_payload hello)).outgoing.stream ≡ [] ++ frame (bytes (of_payload hello)))
    × IsWilling
        (header_size + (of_payload hello).size)
        (send quiet (of_payload hello)).outgoing.script
unfolding of_payload
send-frame_example =
    send-frame quiet (of_payload hello) hello-IsValid (omega arith) (refl, (omega arith, tt))

sent_frame : (send quiet (of_payload hello)).outgoing.stream ≡ stream (hello ∷ [])
unfolding send of_payload header_bytes prepend posix_send
sent_frame = refl

send-receive_all_example : Decodes (hello ∷ []) (receive_all 20 init cut)
send-receive_all_example =
    send-receive_all hello (rejects 4 ∷ accepts 100 ∷ []) cut 20 (omega arith) (omega arith)
      (refl, (omega arith, tt)) (inl refl, (inr refl, tt)) (cut_frame ∙ sym sent_frame)
      (omega arith)

send_short_write_example :
    let t =
      send
        (record { script = accepts header_size ∷ accepts 1 ∷ []; stream = [] })
        (of_payload hello) in
    (t.result ≡ none)
    × (t.outgoing.stream ≡ header_bytes (length hello) ++ take 1 hello)
    × (length t.outgoing.stream < length (frame hello))
send_short_write_example = send_short_write hello 1 (omega arith) (omega arith)
