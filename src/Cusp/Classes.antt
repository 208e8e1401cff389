-- ===== src/Cusp/Classes.antt =====
-- The handle classes of cusp.cpp, each with the pair of exported functions that it calls, and the
-- thirteen of them under one name.
use gocusp.Base.{Bool}
use gocusp.Cusp.Ref.{HandleClass, handle_class}
use gocusp.Ml.{ℤ}
use gocusp.Runtime.Handles.{
  Kind, abortable, address, channel_iterator, dup, end_point, event, host, host_iterator, in_stream,
  in_stream_iterator, out_stream, out_stream_iterator, private_key, public_key, release,
}
use gocusp.Runtime.World.{M}

-- EndPoint (end point handles)
unfoldable pub cusp_endpoint_dup : ℤ → M ℤ
unfolding dup
cusp_endpoint_dup = dup end_point

unfoldable pub cusp_endpoint_free : ℤ → M Bool
unfolding release
cusp_endpoint_free = release end_point

unfoldable pub end_point_class : HandleClass end_point
unfolding cusp_endpoint_dup cusp_endpoint_free handle_class
end_point_class = handle_class end_point cusp_endpoint_dup cusp_endpoint_free

-- Address (address handles)
unfoldable pub cusp_address_dup : ℤ → M ℤ
unfolding dup
cusp_address_dup = dup address

unfoldable pub cusp_address_free : ℤ → M Bool
unfolding release
cusp_address_free = release address

unfoldable pub address_class : HandleClass address
unfolding cusp_address_dup cusp_address_free handle_class
address_class = handle_class address cusp_address_dup cusp_address_free

-- Host (host handles)
unfoldable pub cusp_host_dup : ℤ → M ℤ
unfolding dup
cusp_host_dup = dup host

unfoldable pub cusp_host_free : ℤ → M Bool
unfolding release
cusp_host_free = release host

unfoldable pub host_class : HandleClass host
unfolding cusp_host_dup cusp_host_free handle_class
host_class = handle_class host cusp_host_dup cusp_host_free

-- Host::Iterator (host iterator handles)
unfoldable pub cusp_host_iterator_dup : ℤ → M ℤ
unfolding dup
cusp_host_iterator_dup = dup host_iterator

unfoldable pub cusp_host_iterator_free : ℤ → M Bool
unfolding release
cusp_host_iterator_free = release host_iterator

unfoldable pub host_iterator_class : HandleClass host_iterator
unfolding cusp_host_iterator_dup cusp_host_iterator_free handle_class
host_iterator_class = handle_class host_iterator cusp_host_iterator_dup cusp_host_iterator_free

-- Channel::Iterator (channel iterator handles)
unfoldable pub cusp_channel_iterator_dup : ℤ → M ℤ
unfolding dup
cusp_channel_iterator_dup = dup channel_iterator

unfoldable pub cusp_channel_iterator_free : ℤ → M Bool
unfolding release
cusp_channel_iterator_free = release channel_iterator

unfoldable pub channel_iterator_class : HandleClass channel_iterator
unfolding cusp_channel_iterator_dup cusp_channel_iterator_free handle_class
channel_iterator_class =
    handle_class channel_iterator cusp_channel_iterator_dup cusp_channel_iterator_free

-- InStream (in stream handles)
unfoldable pub cusp_instream_dup : ℤ → M ℤ
unfolding dup
cusp_instream_dup = dup in_stream

unfoldable pub cusp_instream_free : ℤ → M Bool
unfolding release
cusp_instream_free = release in_stream

unfoldable pub in_stream_class : HandleClass in_stream
unfolding cusp_instream_dup cusp_instream_free handle_class
in_stream_class = handle_class in_stream cusp_instream_dup cusp_instream_free

-- InStream::Iterator (in stream iterator handles)
unfoldable pub cusp_instream_iterator_dup : ℤ → M ℤ
unfolding dup
cusp_instream_iterator_dup = dup in_stream_iterator

unfoldable pub cusp_instream_iterator_free : ℤ → M Bool
unfolding release
cusp_instream_iterator_free = release in_stream_iterator

unfoldable pub in_stream_iterator_class : HandleClass in_stream_iterator
unfolding cusp_instream_iterator_dup cusp_instream_iterator_free handle_class
in_stream_iterator_class =
    handle_class in_stream_iterator cusp_instream_iterator_dup cusp_instream_iterator_free

-- OutStream (out stream handles)
unfoldable pub cusp_outstream_dup : ℤ → M ℤ
unfolding dup
cusp_outstream_dup = dup out_stream

unfoldable pub cusp_outstream_free : ℤ → M Bool
unfolding release
cusp_outstream_free = release out_stream

unfoldable pub out_stream_class : HandleClass out_stream
unfolding cusp_outstream_dup cusp_outstream_free handle_class
out_stream_class = handle_class out_stream cusp_outstream_dup cusp_outstream_free

-- OutStream::Iterator (out stream iterator handles)
unfoldable pub cusp_outstream_iterator_dup : ℤ → M ℤ
unfolding dup
cusp_outstream_iterator_dup = dup out_stream_iterator

unfoldable pub cusp_outstream_iterator_free : ℤ → M Bool
unfolding release
cusp_outstream_iterator_free = release out_stream_iterator

unfoldable pub out_stream_iterator_class : HandleClass out_stream_iterator
unfolding cusp_outstream_iterator_dup cusp_outstream_iterator_free handle_class
out_stream_iterator_class =
    handle_class out_stream_iterator cusp_outstream_iterator_dup cusp_outstream_iterator_free

-- Event (event handles)
unfoldable pub cusp_event_dup : ℤ → M ℤ
unfolding dup
cusp_event_dup = dup event

unfoldable pub cusp_event_free : ℤ → M Bool
unfolding release
cusp_event_free = release event

unfoldable pub event_class : HandleClass event
unfolding cusp_event_dup cusp_event_free handle_class
event_class = handle_class event cusp_event_dup cusp_event_free

-- Abortable (abortable handles)
unfoldable pub cusp_abortable_dup : ℤ → M ℤ
unfolding dup
cusp_abortable_dup = dup abortable

unfoldable pub cusp_abortable_free : ℤ → M Bool
unfolding release
cusp_abortable_free = release abortable

unfoldable pub abortable_class : HandleClass abortable
unfolding cusp_abortable_dup cusp_abortable_free handle_class
abortable_class = handle_class abortable cusp_abortable_dup cusp_abortable_free

-- PublicKey (public key handles)
unfoldable pub cusp_publickey_dup : ℤ → M ℤ
unfolding dup
cusp_publickey_dup = dup public_key

unfoldable pub cusp_publickey_free : ℤ → M Bool
unfolding release
cusp_publickey_free = release public_key

unfoldable pub public_key_class : HandleClass public_key
unfolding cusp_publickey_dup cusp_publickey_free handle_class
public_key_class = handle_class public_key cusp_publickey_dup cusp_publickey_free

-- PrivateKey (private key handles)
unfoldable pub cusp_privatekey_dup : ℤ → M ℤ
unfolding dup
cusp_privatekey_dup = dup private_key

unfoldable pub cusp_privatekey_free : ℤ → M Bool
unfolding release
cusp_privatekey_free = release private_key

unfoldable pub private_key_class : HandleClass private_key
unfolding cusp_privatekey_dup cusp_privatekey_free handle_class
private_key_class = handle_class private_key cusp_privatekey_dup cusp_privatekey_free

-- The class whose objects are handles of the bucket `k`.
unfoldable pub class_of : (k : Kind) → HandleClass k
unfolding end_point_class address_class host_class host_iterator_class channel_iterator_class
    in_stream_class in_stream_iterator_class out_stream_class out_stream_iterator_class event_class
    abortable_class public_key_class private_key_class
class_of end_point = end_point_class
class_of address = address_class
class_of host = host_class
class_of host_iterator = host_iterator_class
class_of channel_iterator = channel_iterator_class
class_of in_stream = in_stream_class
class_of in_stream_iterator = in_stream_iterator_class
class_of out_stream = out_stream_class
class_of out_stream_iterator = out_stream_iterator_class
class_of event = event_class
class_of abortable = abortable_class
class_of public_key = public_key_class
class_of private_key = private_key_class
