-- ===== src/Protocol/Stream.antt =====
-- Messages that arrive together over TCP: TcpCanbusCommunication::processBuffer takes what one read gave
-- as one message (src/communication/TcpCanbusCommunication.cpp).
