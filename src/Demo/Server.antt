-- ===== src/Demo/Server.antt =====
-- cbindings/demo/server.cpp: a server that passes what a client sends on to all its clients. What it
-- prints is left out, the calls for the texts that it prints are not. The connections are objects on
-- the heap, found by their addresses; an address without an object is a fault.
pub mod Broadcast
pub mod Greeting
pub mod Lists
pub mod Printing
pub mod HostRound
pub mod HostList
pub mod UnknownAddress
pub mod Main
use gocusp.Cusp.Host
use gocusp.Cusp.InStream
use gocusp.Cusp.OutStream
use gocusp.Base.{
  Bool, List, Option, [], false, if◌then◌else◌, length, none, not, some, true, ◌&&◌, ◌==◌, ◌∷◌,
}
use gocusp.Cusp.Classes.{class_of}
use gocusp.Cusp.Ref.{Ref}
use gocusp.Ml.{is_nonneg, minus_one, pos}
use gocusp.Runtime.Engine.{Bytes, Engine, Pointer}
use gocusp.Runtime.Handles.{end_point, host, in_stream, out_stream}
use gocusp.Runtime.World.{M, memory_fault, pure, returns, stops, ◌>>=◌, ◌>>◌}
use gocusp.Util.BiDiConn.{bytes_service}

pub record Connection : Type 0 where
  pub self : Pointer
  pub is : Ref in_stream
  pub remote_host : Ref host
  pub os : Ref out_stream
  pub ready : Bool

pub record Server : Type 0 where
  pub ep : Ref end_point
  -- The vector of the connections' addresses.
  pub connections : List Pointer
  -- The heap.
  pub objects : List Connection

abbrev pub find : Pointer → List Connection → Option Connection
find p [] = none
find p (c ∷ cs) = let rest = find p cs in if c.self == p then some c else rest

abbrev pub store : Connection → List Connection → List Connection
store c [] = []
store c (d ∷ ds) = let rest = store c ds in if d.self == c.self then c ∷ ds else d ∷ rest

abbrev pub discard : Pointer → List Connection → List Connection
discard p [] = []
discard p (c ∷ cs) = let rest = discard p cs in if c.self == p then cs else c ∷ rest

-- connections.erase(it) of the first iterator at `p`
abbrev pub erase : Pointer → List Pointer → List Pointer
erase p [] = []
erase p (q ∷ qs) = let rest = erase p qs in if q == p then qs else q ∷ rest

abbrev pub or_fault : Option Connection → M Connection
or_fault none w = stops memory_fault
or_fault (some c) w = returns c w

abbrev pub object : Pointer → List Connection → M Connection
object p cs w = or_fault (find p cs) w

-- "HELLO", with the byte that ends it
abbrev pub hello : Bytes
hello = 72 ∷ 69 ∷ 76 ∷ 76 ∷ 79 ∷ 0 ∷ []

module _ (E : Engine) where
  unfoldable pub send_message : Bytes → Connection → M Connection
  send_message bytes c =
      if is_nonneg c.os.handle && c.ready
      then (do OutStream.write E c.os bytes c.self; pure (record c { ready = false }))
      else (do Host.key_str E c.remote_host; pure c)

  pub broadcast : Bytes → List Pointer → List Connection → M (List Connection)
  broadcast bytes [] objects = pure objects
  broadcast bytes (p ∷ ps) objects = do
    c ← object p objects
    c1 ← send_message bytes c
    broadcast bytes ps (store c1 objects)

  unfoldable pub remove_connection : Pointer → Server → M Server
  remove_connection p s = do
    c ← object p s.objects
    Host.key_str E c.remote_host
    pure (record s { connections = erase p s.connections })

  -- delete, with the destructors of the fields
  unfoldable pub delete_connection : Connection → Server → M Server
  delete_connection c s = do
    (class_of out_stream).destruct c.os
    (class_of host).destruct c.remote_host
    (class_of in_stream).destruct c.is
    pure (record s { objects = discard c.self s.objects })

  abbrev remove_and_delete : Connection → Server → M Server
  remove_and_delete c s = do s1 ← remove_connection c.self s; delete_connection c s1

  -- new Connection(server, instream, host), where the object is at `p`
  unfoldable pub new_connection : Pointer → Ref in_stream → Ref host → M Connection
  new_connection p stream h = do
    is ← (class_of in_stream).copy stream
    own ← (class_of host).copy h
    InStream.read E is p (pos 2)
    pure (record {
      self = p;
      is = is;
      remote_host = own;
      os = (class_of out_stream).invalid;
      ready = false;
    })

  -- onReceive of the connection at `p`
  abbrev connect_back : Connection → Bytes → Server → M Server
  connect_back c bytes s = do
    stream ← Host.connect E c.remote_host (bytes_service bytes)
    os ← (class_of out_stream).assign c.os stream
    (class_of out_stream).destruct stream
    c1 ← send_message hello (record c { os = os; ready = true })
    InStream.read E c1.is c1.self minus_one
    pure (record s { objects = store c1 s.objects })

  abbrev refuse : Connection → Server → M Server
  refuse c s = do InStream.reset E c.is; remove_and_delete c s

  abbrev pass_on : Connection → Bytes → Server → M Server
  pass_on c bytes s = do
    objects ← broadcast bytes s.connections s.objects
    InStream.read E c.is c.self minus_one
    pure (record s { objects = objects })

  unfoldable pub on_receive : Pointer → Bytes → Server → M Server
  on_receive p bytes s = do
    c ← object p s.objects
    Host.key_str E c.remote_host
    if is_nonneg c.os.handle
        then pass_on c bytes s
        else if length bytes == 2
        then connect_back c bytes s
        else refuse c s

  unfoldable pub on_shutdown : Pointer → Server → M Server
  on_shutdown p s = do
    c ← object p s.objects
    let c1 : Connection = record c { ready = false }
    if is_nonneg c.os.handle
        then (do OutStream.shutdown E c.os p; pure (record s { objects = store c1 s.objects }))
        else remove_and_delete c1 s

  -- The object is not deleted.
  unfoldable pub on_reset : Pointer → Server → M Server
  unfolding remove_connection
  on_reset p s = do
    c ← object p s.objects
    InStream.reset E c.is
    if is_nonneg c.os.handle then OutStream.reset E c.os else pure tt
    remove_connection p s

  unfoldable pub on_ready : Pointer → Server → M Server
  on_ready p s = do
    c ← object p s.objects
    pure (record s { objects = store (record c { ready = true }) s.objects })

  unfoldable pub on_shutdown_done : Pointer → Bool → Server → M Server
  on_shutdown_done p success s = do
    c ← object p s.objects
    if is_nonneg c.os.handle && not success then OutStream.reset E c.os else pure tt
    remove_and_delete c s
